-- ===== src/Base/Texts.antt =====
-- Texts as lists of ASCII codes, and `std::to_string`.
use Prim.Native.Nat.{ℕ, zero, suc, ◌+◌, ◌-◌, ◌*◌, ◌/◌, ◌%◌, ◌^◌, ◌<◌, ◌≤◌}
use Prim.Native.Char.{code}
use Prim.Native.String.{String}
use mathlib.Core.Path.{◌≡◌, refl}
use mathlib.Core.Bool.{Bool, true, false, ◌&&◌}
use mathlib.Core.List.{List, [], ◌∷◌, ◌++◌}
use native.Mathlib.Omega.{arith}
use mathlib.Core.Logic.{inl, inr, ◌≢◌}
use ebpf_system_monitor.Base.Tests.{Bool-cases, ◌==◌, ltb, if◌then◌else◌}

abbrev pub Text : Type 0
Text = List ℕ

-- The characters of a literal.
abbrev pub ascii : String → Text
ascii String.[] = []
ascii (String.◌∷◌ c s) = code c ∷ ascii s

-- `==` on std::string.
abbrev pub text_eq : Text → Text → Bool
text_eq [] [] = true
text_eq [] (c ∷ cs) = false
text_eq (b ∷ bs) [] = false
text_eq (b ∷ bs) (c ∷ cs) = b == c && text_eq bs cs

-- `n` in decimal, if the fuel is its number of digits at least.
unfoldable pub digits : ℕ → ℕ → Text
digits zero n = []
digits (suc fuel) n =
    let front = digits fuel (n / 10) in
    if ltb n 10 then (48 + n) ∷ [] else front ++ ((48 + n % 10) ∷ [])

-- Of a 64-bit number, which has 20 digits at most.
unfoldable pub to_string : ℕ → Text
unfolding digits
to_string n = digits 20 n

-- The number that a text of digits stands for, after one read before.
abbrev pub read_from : ℕ → Text → ℕ
read_from n [] = n
read_from n (c ∷ cs) = read_from (n * 10 + (c - 48)) cs

read_from-append :
    (n : ℕ) (cs : Text) (d : ℕ) → read_from n (cs ++ (d ∷ [])) ≡ read_from n cs * 10 + (d - 48)
read_from-append n [] d = refl
read_from-append n (c ∷ cs) d = read_from-append (n * 10 + (c - 48)) cs d

read_from-digits : (fuel n : ℕ) → n < 10 ^ fuel → read_from 0 (digits fuel n) ≡ n
unfolding digits
read_from-digits zero n h = omega arith
read_from-digits (suc fuel) n h =
    ground (
      arith,
      read_from-append 0 (digits fuel (n / 10)) (48 + n % 10),
      read_from-digits fuel (n / 10),
    )

pub read_from-to_string : (n : ℕ) → n < 2 ^ 64 → read_from 0 (to_string n) ≡ n
unfolding to_string
read_from-to_string n h = read_from-digits 20 n (omega arith)

-- Every character is a digit.
abbrev pub AreDigits : Text → Type 0
AreDigits [] = Unit {0}
AreDigits (c ∷ cs) = (48 ≤ c) × (c < 58) × AreDigits cs

AreDigits-snoc : (cs : Text) (d : ℕ) → AreDigits cs → 48 ≤ d → d < 58 → AreDigits (cs ++ (d ∷ []))
AreDigits-snoc [] d h l u = (l, u, tt)
AreDigits-snoc (c ∷ cs) d h l u = (h.0, h.1, AreDigits-snoc cs d h.2 l u)

digits-AreDigits : (fuel n : ℕ) → AreDigits (digits fuel n)
unfolding digits
digits-AreDigits zero n = tt
digits-AreDigits (suc fuel) n = elim (Bool-cases (ltb n 10)) [
  | inl last ↦ rw last (omega arith, ground arith, tt)
  | inr more ↦ rw more (
      AreDigits-snoc (digits fuel (n / 10)) (48 + n % 10) (digits-AreDigits fuel (n / 10))
        (omega arith) (omega arith))
]

pub to_string-AreDigits : (n : ℕ) → AreDigits (to_string n)
unfolding to_string
to_string-AreDigits n = digits-AreDigits 20 n

-- A text without the character.
abbrev pub Lacks : ℕ → Text → Type 0
Lacks c [] = Unit {0}
Lacks c (x ∷ xs) = (x ≢ c) × Lacks c xs

pub Lacks-append : (c : ℕ) (s t : Text) → Lacks c s → Lacks c t → Lacks c (s ++ t)
Lacks-append c [] t h k = k
Lacks-append c (x ∷ xs) t h k = (h.0, Lacks-append c xs t h.1 k)

pub to_string-Lacks : (c n : ℕ) → c < 48 → Lacks c (to_string n)
to_string-Lacks c n small = go (to_string n) (to_string-AreDigits n)
  where
    go : (cs : Text) → AreDigits cs → Lacks c cs
    go [] h = tt
    go (x ∷ xs) h = (omega arith, go xs h.2)

-- Texts one after the other.
abbrev pub concat : List Text → Text
concat [] = []
concat (t ∷ ts) = t ++ concat ts
