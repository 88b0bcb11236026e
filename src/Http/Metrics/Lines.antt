-- ===== src/Http/Metrics/Lines.antt =====
-- The text as a scraper reads it, line by line.
use ebpf_system_monitor.Base.{
  ℕ, ◌≡◌, refl, ◌∙◌, ap, sym, List, [], ◌∷◌, ◌++◌, ◌==◌, if◌then◌else◌, arith, append_assoc,
  append-nil, Text, ascii, to_string, Lacks, Lacks-append, to_string-Lacks, false,
}
use ebpf_system_monitor.Http.Metrics.{emit_help, emit_type, sample}

-- The lines of a text, each ended by "\n"; `line` is the line so far.
unfoldable pub read_lines : Text → Text → List Text
read_lines [] line = []
read_lines (c ∷ cs) line =
    let next = read_lines cs [] in
    let more = read_lines cs (line ++ (c ∷ [])) in if c == 10 then line ∷ next else more

abbrev pub help_line : Text → Text → Text
help_line name help = ascii "# HELP " ++ (name ++ (32 ∷ help))

abbrev pub type_line : Text → Text → Text
type_line name type = ascii "# TYPE " ++ (name ++ (32 ∷ type))

abbrev pub sample_line : Text → Text → ℕ → ℕ → Text
sample_line name labels value now =
    name ++ (labels ++ (32 ∷ to_string value ++ (32 ∷ to_string now)))

-- A text has no line break.
abbrev pub OneLine : Text → Type 0
OneLine = Lacks 10

read_line :
    (l rest line : Text)
    → OneLine l
    → read_lines (l ++ (10 ∷ rest)) line ≡ (line ++ l) ∷ read_lines rest []
unfolding read_lines
read_line [] rest line h = ap (λ l. l ∷ read_lines rest []) (sym (append-nil line))
read_line (c ∷ cs) rest line h = rw other (
    read_line cs rest (line ++ (c ∷ [])) h.1
    ∙ ap (λ l. l ∷ read_lines rest []) (append_assoc line (c ∷ []) cs))
  where
    other : (c == 10) ≡ false
    other = ground (arith, h.0)

pub read_blank : (rest : Text) → read_lines (10 ∷ rest) [] ≡ [] ∷ read_lines rest []
unfolding read_lines
read_blank rest = refl

pub read_help :
    (name help rest : Text)
    → OneLine name
    → OneLine help
    → read_lines (emit_help name help ++ rest) [] ≡ help_line name help ∷ read_lines rest []
unfolding emit_help
read_help name help rest h k =
    ap (λ t. read_lines t []) together ∙ read_line (help_line name help) rest [] one
  where
    together : emit_help name help ++ rest ≡ help_line name help ++ (10 ∷ rest)
    together = simp append_assoc

    one : OneLine (help_line name help)
    one =
        Lacks-append 10 (ascii "# HELP ") _ (omega arith)
          (Lacks-append 10 name _ h ((λ e. omega arith), k))

pub read_type :
    (name type rest : Text)
    → OneLine name
    → OneLine type
    → read_lines (emit_type name type ++ rest) [] ≡ type_line name type ∷ read_lines rest []
unfolding emit_type
read_type name type rest h k =
    ap (λ t. read_lines t []) together ∙ read_line (type_line name type) rest [] one
  where
    together : emit_type name type ++ rest ≡ type_line name type ++ (10 ∷ rest)
    together = simp append_assoc

    one : OneLine (type_line name type)
    one =
        Lacks-append 10 (ascii "# TYPE ") _ (omega arith)
          (Lacks-append 10 name _ h ((λ e. omega arith), k))

pub read_sample :
    (name labels : Text) (value now : ℕ) (rest : Text)
    → OneLine name
    → OneLine labels
    → read_lines (sample name labels value now ++ rest) []
      ≡ sample_line name labels value now ∷ read_lines rest []
unfolding sample
read_sample name labels value now rest h k =
    ap (λ t. read_lines t []) together ∙ read_line (sample_line name labels value now) rest [] one
  where
    together :
        sample name labels value now ++ rest ≡ sample_line name labels value now ++ (10 ∷ rest)
    together = simp append_assoc

    one : OneLine (sample_line name labels value now)
    one = Lacks-append 10 name _ h (
        Lacks-append 10 labels _ k (
          (λ e. omega arith),
          Lacks-append 10 (to_string value) _ (to_string-Lacks 10 value (omega arith))
              ((λ e. omega arith), to_string-Lacks 10 now (omega arith)),
        ))

pub then_line : {x more ls : List Text} {l : Text} → x ≡ l ∷ more → more ≡ ls → x ≡ l ∷ ls
then_line {l} e f = e ∙ ap (λ t. l ∷ t) f

pub read_end : read_lines [] [] ≡ []
unfolding read_lines
read_end = refl
