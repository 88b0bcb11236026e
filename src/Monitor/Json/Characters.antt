-- ===== src/Monitor/Json/Characters.antt =====
-- What the reader makes of the pieces of a text.
use ebpf_system_monitor.Base.{
  ℕ, zero, suc, ◌+◌, ◌-◌, ◌*◌, ◌/◌, ◌%◌, ◌^◌, ◌<◌, ◌≤◌, ◌≡◌, ◌≢◌, refl, ◌∙◌, ap, sym, inl, inr,
  true, false, ◌||◌, List, [], ◌∷◌, ◌++◌, ◌==◌, ltb, arith, append_assoc, append-nil, Bool-cases,
  Text, digits, to_string, concat, AreDigits, to_string-AreDigits,
}
use ebpf_system_monitor.Monitor.Json.{
  Parser, Reader, between, in_string, in_number, is_digit, start, step, read_on,
}

pub read_on-append : (s t : Text) (r : Reader) → read_on (s ++ t) r ≡ read_on t (read_on s r)
unfolding read_on
read_on-append [] t r = refl
read_on-append (c ∷ cs) t r = read_on-append cs t (step c r)

-- A text has no quote, no backslash and no control character.
abbrev pub IsQuotable : Text → Type 0
IsQuotable [] = Unit {0}
IsQuotable (c ∷ cs) = (32 ≤ c) × (c ≢ 34) × (c ≢ 92) × IsQuotable cs

pub IsQuotable-append : (s t : Text) → IsQuotable s → IsQuotable t → IsQuotable (s ++ t)
IsQuotable-append [] t h k = k
IsQuotable-append (c ∷ cs) t h k = (h.0, h.1, h.2, IsQuotable-append cs t h.3 k)

pub read_on-IsQuotable :
    (t s : Text) (p : Parser) → IsQuotable t → read_on t (in_string s p) ≡ in_string (s ++ t) p
unfolding read_on step
read_on-IsQuotable [] s p h = ap (λ t. in_string t p) (sym (append-nil s))
read_on-IsQuotable (c ∷ cs) s p h =
    rw (other, plain)
      (read_on-IsQuotable cs (s ++ (c ∷ [])) p h.3
        ∙ ap (λ t. in_string t p) (append_assoc s (c ∷ []) cs))
  where
    other : (c == 34) ≡ false
    other = ground (arith, h.1)

    plain : (c == 92 || ltb c 32) ≡ false
    plain = ground (arith, h.0, h.2)

a_digit : (d : ℕ) → d < 10 → is_digit (48 + d) ≡ true
unfolding is_digit
a_digit d h = ground arith

one_digit : (d : ℕ) (p : Parser) → d < 10 → step (48 + d) (between p) ≡ in_number d p
unfolding step start
one_digit d p h = rw (no_quote, a_digit d h, minus)
  where
    no_quote : (48 + d == 34) ≡ false
    no_quote = ground arith

    minus : 48 + d - 48 ≡ d
    minus = omega arith

next_digit :
    (d n : ℕ) (p : Parser)
    → d < 10
    → 0 < n
    → step (48 + d) (in_number n p) ≡ in_number (n * 10 + d) p
unfolding step
next_digit d n p h pos = rw (a_digit d h, not_0, minus)
  where
    not_0 : (n == 0) ≡ false
    not_0 = ground arith

    minus : 48 + d - 48 ≡ d
    minus = omega arith

more_fuel : (fuel n : ℕ) → n < 10 ^ suc fuel → ltb n 10 ≡ false → 0 < fuel
more_fuel zero n h more = ground arith
more_fuel (suc fuel) n h more = omega arith

read_on-digits :
    (fuel n : ℕ) (p : Parser)
    → 0 < fuel
    → n < 10 ^ fuel
    → read_on (digits fuel n) (between p) ≡ in_number n p
unfolding digits read_on
read_on-digits zero n p pos h = ground arith
read_on-digits (suc fuel) n p pos h = elim (Bool-cases (ltb n 10)) [
  | inl last ↦ rw last (one_digit n p (ground arith))
  | inr more ↦ rw more (
      read_on-append (digits fuel (n / 10)) ((48 + n % 10) ∷ []) (between p)
      ∙ ap (step (48 + n % 10))
          (read_on-digits fuel (n / 10) p (more_fuel fuel n h more) (ground arith))
      ∙ next_digit (n % 10) (n / 10) p (omega arith) (ground arith)
      ∙ ap (λ m. in_number m p) (omega arith))
]

pub read_on-to_string :
    (n : ℕ) (p : Parser) → n < 2 ^ 64 → read_on (to_string n) (between p) ≡ in_number n p
unfolding to_string
read_on-to_string n p h = read_on-digits 20 n p (omega arith) (omega arith)

pub to_string-IsQuotable : (n : ℕ) → IsQuotable (to_string n)
to_string-IsQuotable n = go (to_string n) (to_string-AreDigits n)
  where
    go : (cs : Text) → AreDigits cs → IsQuotable cs
    go [] h = tt
    go (c ∷ cs) h = (omega arith, ground arith, ground arith, go cs h.2)

-- The reader after each of the pieces in turn.
unfoldable pub read_pieces : List Text → Reader → Reader
read_pieces [] r = r
read_pieces (t ∷ ts) r = read_pieces ts (read_on t r)

pub read_on-concat :
    (ts : List Text) (rest : Text) (r : Reader)
    → read_on (concat ts ++ rest) r ≡ read_on rest (read_pieces ts r)
unfolding read_pieces
read_on-concat [] rest r = refl
read_on-concat (t ∷ ts) rest r =
    ap (λ s. read_on s r) (append_assoc t (concat ts) rest)
    ∙ read_on-append t (concat ts ++ rest) r
    ∙ read_on-concat ts rest (read_on t r)

-- What is written in a string.
pub piece_in_string :
    (t s : Text) (p : Parser) (ts : List Text)
    → IsQuotable t
    → read_pieces (t ∷ ts) (in_string s p) ≡ read_pieces ts (in_string (s ++ t) p)
unfolding read_pieces
piece_in_string t s p ts h = ap (read_pieces ts) (read_on-IsQuotable t s p h)

pub piece_number :
    (n : ℕ) (p : Parser) (ts : List Text)
    → n < 2 ^ 64
    → read_pieces (to_string n ∷ ts) (between p) ≡ read_pieces ts (in_number n p)
unfolding read_pieces
piece_number n p ts h = ap (read_pieces ts) (read_on-to_string n p h)
