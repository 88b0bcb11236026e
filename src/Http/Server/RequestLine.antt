-- ===== src/Http/Server/RequestLine.antt =====
-- The path of a request line.
use ebpf_system_monitor.Base.{
  ℕ, suc, ◌+◌, ◌-◌, ◌≡◌, refl, ap, false, none, some, [], ◌∷◌, ◌++◌, ◌==◌, arith, drop, length,
  Text, take-append_left,
}
use ebpf_system_monitor.Http.Server.{find_in, find, space, parse_path}

-- No character of the text is a space.
abbrev pub HasNoSpace : Text → Type 0
HasNoSpace [] = Unit {0}
HasNoSpace (c ∷ cs) = ((c == space) ≡ false) × HasNoSpace cs

find_in-space :
    (s rest : Text) (i : ℕ)
    → HasNoSpace s
    → find_in space (s ++ (space ∷ rest)) i ≡ some (i + length s)
unfolding find_in
find_in-space [] rest i h = ap some (omega arith)
find_in-space (c ∷ cs) rest i h = ground (arith, h.0, find_in-space cs rest (i + 1) h.1)

find_in-none : (s : Text) (i : ℕ) → HasNoSpace s → find_in space s i ≡ none
unfolding find_in
find_in-none [] i h = refl
find_in-none (c ∷ cs) i h = ground (arith, h.0, find_in-none cs (i + 1) h.1)

pub parse_path-none : (s : Text) → HasNoSpace s → parse_path s ≡ []
unfolding parse_path find
parse_path-none s h = rw (find_in-none s 0 h, parse_path)

drop-suc : (s rest : Text) (c : ℕ) → drop (suc (length s)) (s ++ (c ∷ rest)) ≡ rest
drop-suc [] rest c = refl
drop-suc (x ∷ xs) rest c = drop-suc xs rest c

-- The path of a request line with a method and a path without spaces is found, whatever follows.
pub parse_path-request :
    (method path rest : Text)
    → HasNoSpace method
    → HasNoSpace path
    → parse_path (method ++ (space ∷ path ++ (space ∷ rest))) ≡ path
unfolding parse_path find
parse_path-request method path rest m p =
    rw (first, parse_path, find, at, path_left, second, width, at, path_left)
      (take-append_left path (space ∷ rest))
  where
    first : find_in space (method ++ (space ∷ path ++ (space ∷ rest))) 0 ≡ some (0 + length method)
    first = find_in-space method (path ++ (space ∷ rest)) 0 m

    at : 0 + length method + 1 ≡ suc (length method)
    at = omega arith

    second :
        find_in space (path ++ (space ∷ rest)) (suc (length method))
        ≡ some (suc (length method) + length path)
    second = find_in-space path rest (suc (length method)) p

    width : suc (length method) + length path - (0 + length method) - 1 ≡ length path
    width = omega arith

    path_left :
        drop (suc (length method)) (method ++ (space ∷ path ++ (space ∷ rest)))
        ≡ path ++ (space ∷ rest)
    path_left = drop-suc method (path ++ (space ∷ rest)) space
