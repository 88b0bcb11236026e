-- ===== src/Http/Server/Framing.antt =====
-- The response as a client reads it.
use ebpf_system_monitor.Base.{
  ℕ, ◌≡◌, refl, ◌∙◌, ap, sym, inl, inr, Bool, true, false, Option, none, some, List, [], ◌∷◌, ◌++◌,
  ◌==◌, if◌then◌else◌, arith, append_assoc, append-nil, length, Text, to_string, Lacks,
  Lacks-append, to_string-Lacks, Bool-cases,
}
use ebpf_system_monitor.Http.Texts.{http_1_1, ok_reason, not_found}
use ebpf_system_monitor.Http.Server.{space, build_response, is_empty}

abbrev pub Headers : Type 0
Headers = List Text × Text

abbrev with_line : Text → Option Headers → Option Headers
with_line line none = none
with_line line (some (lines, body)) = some (line ∷ lines, body)

-- A client: it reads lines that end in "\r\n" up to an empty one, and takes what follows for the
-- body. `after_cr` says that the last character was '\r', `line` is the line so far.
unfoldable pub receive : Text → Bool → Text → Option Headers
receive [] after_cr line = none
receive (c ∷ cs) false line =
    let more = receive cs true line in
    let plain = receive cs false (line ++ (c ∷ [])) in if c == 13 then more else plain
receive (c ∷ cs) true line =
    let next = with_line line (receive cs false []) in
    if c == 10 then (if is_empty line then some ([], cs) else next) else none

-- No character is '\r'.
abbrev pub HasNoCr : Text → Type 0
HasNoCr = Lacks 13

receive_line :
    (l rest acc : Text)
    → HasNoCr l
    → receive (l ++ (13 ∷ 10 ∷ rest)) false acc ≡ (
        if is_empty (acc ++ l)
        then some ([], rest)
        else with_line (acc ++ l) (receive rest false []))
unfolding receive
receive_line [] rest acc h = rw append-nil
receive_line (c ∷ cs) rest acc h =
    rw (other, receive_line cs rest (acc ++ (c ∷ [])) h.1, append_assoc acc (c ∷ []) cs)
  where
    other : (c == 13) ≡ false
    other = ground (arith, h.0)

abbrev reason_of : ℕ → Text
reason_of status = if status == 200 then ok_reason else not_found

-- "Content-Type: " and "Content-Length: ", without the "\r\n" before them, and "Connection: close".
abbrev type_name : Text
type_name = 67 ∷ 111 ∷ 110 ∷ 116 ∷ 101 ∷ 110 ∷ 116 ∷ 45 ∷ 84 ∷ 121 ∷ 112 ∷ 101 ∷ 58 ∷ 32 ∷ []

abbrev length_name : Text
length_name =
    67 ∷ 111 ∷ 110 ∷ 116 ∷ 101 ∷ 110 ∷ 116 ∷ 45 ∷ 76 ∷ 101 ∷ 110 ∷ 103 ∷ 116 ∷ 104 ∷ 58 ∷ 32 ∷ []

abbrev pub type_line : Text → Text
type_line content_type = type_name ++ content_type

abbrev pub length_line : ℕ → Text
length_line n = length_name ++ to_string n

abbrev pub close_line : Text
close_line =
    67 ∷ 111 ∷ 110 ∷ 110 ∷ 101 ∷ 99 ∷ 116 ∷ 105 ∷ 111 ∷ 110 ∷ 58 ∷ 32 ∷ 99 ∷ 108 ∷ 111 ∷ 115 ∷ 101
    ∷ []

abbrev pub status_line : ℕ → Text
status_line status = http_1_1 ++ (to_string status ++ (space ∷ reason_of status))

reason-HasNoCr : (status : ℕ) → HasNoCr (reason_of status)
reason-HasNoCr status = elim (Bool-cases (status == 200)) [
  | inl ok ↦ rw ok (omega arith)
  | inr other ↦ rw other (omega arith)
]

receive_next :
    (l rest body : Text) (lines : List Text)
    → HasNoCr l
    → is_empty l ≡ false
    → receive rest false [] ≡ some (lines, body)
    → receive (l ++ (13 ∷ 10 ∷ rest)) false [] ≡ some (l ∷ lines, body)
receive_next l rest body lines h filled e = rw (receive_line l rest [] h, filled, e)

receive_end : (body : Text) → receive (13 ∷ 10 ∷ body) false [] ≡ some ([], body)
unfolding receive
receive_end body = refl

-- A client that reads the response gets four lines and the body, whatever that holds: the status line,
-- the content type, the length of the body in decimal, and the line that announces the close. The content
-- type must have no '\r'.
pub receive-build_response :
    (status : ℕ) (content_type body : Text)
    → HasNoCr content_type
    → receive (build_response status content_type body) false []
      ≡ some (
        status_line status ∷ type_line content_type ∷ length_line (length body) ∷ close_line ∷ [],
        body,
      )
unfolding build_response
receive-build_response status content_type body h =
    ap (λ t. receive (http_1_1 ++ t) false [])
      (sym (append_assoc (to_string status) (space ∷ reason_of status) after_status))
    ∙ receive_next (status_line status) (type_line content_type ++ (13 ∷ 10 ∷ after_type)) body _
        (Lacks-append 13 http_1_1 _ (omega arith) (
          Lacks-append 13 (to_string status) _ (to_string-Lacks 13 status (omega arith))
            ((λ e. omega arith), reason-HasNoCr status)))
        refl
        (receive_next (type_line content_type) after_type body _
          (Lacks-append 13 type_name content_type (omega arith) h) refl
          (receive_next (length_line (length body)) (close_line ++ (13 ∷ 10 ∷ 13 ∷ 10 ∷ body)) body
            _
            (Lacks-append 13 length_name _ (omega arith)
              (to_string-Lacks 13 (length body) (omega arith)))
            refl
            (receive_next close_line (13 ∷ 10 ∷ body) body [] (omega arith) refl
              (receive_end body))))
  where
    after_type : Text
    after_type = length_line (length body) ++ (13 ∷ 10 ∷ close_line ++ (13 ∷ 10 ∷ 13 ∷ 10 ∷ body))

    after_status : Text
    after_status = 13 ∷ 10 ∷ type_line content_type ++ (13 ∷ 10 ∷ after_type)
