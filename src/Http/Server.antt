-- ===== src/Http/Server.antt =====
-- src/http/async_server.h: the request of one client. What each `read` returns is an input; `write`,
-- `close` and epoll are the effects that are listed. Texts are lists of ASCII codes.
pub mod RequestLine
pub mod Reading
pub mod Framing
pub mod EventLoop
mod Tests
use ebpf_system_monitor.Http.Texts.{
  http_1_1, ok_reason, not_found, content_type_header, content_length_header, connection_close,
  metrics_path, metrics_type, json_type,
}
use ebpf_system_monitor.Base.{
  ℕ, zero, suc, ◌+◌, ◌-◌, Bool, true, false, ◌&&◌, ◌||◌, Option, none, some, List, [], ◌∷◌, ◌++◌,
  ◌==◌, if◌then◌else◌, take, drop, length, Text, to_string, text_eq,
}

-- `find(c, start)`, which counts from the beginning of the text.
unfoldable pub find_in : ℕ → Text → ℕ → Option ℕ
find_in c [] i = none
find_in c (x ∷ xs) i = let later = find_in c xs (i + 1) in if x == c then some i else later

unfoldable pub find : ℕ → Text → ℕ → Option ℕ
unfolding find_in
find c s start = find_in c (drop start s) start

abbrev pub space : ℕ
space = 32

unfoldable pub parse_path : Text → Text
unfolding find
parse_path req = elim (find space req 0) [
  | none ↦ []
  | some sp1 ↦ elim (find space req (sp1 + 1)) [
    | none ↦ []
    | some sp2 ↦ take (sp2 - sp1 - 1) (drop (sp1 + 1) req)
  ]
]

-- Whether a text begins with "\r\n\r\n".
abbrev pub begins_blank : Text → Bool
begins_blank s = text_eq (take 4 s) (13 ∷ 10 ∷ 13 ∷ 10 ∷ [])

-- `find("\r\n\r\n") != npos`
unfoldable pub has_blank : Text → Bool
has_blank [] = false
has_blank (c ∷ cs) = begins_blank (c ∷ cs) || has_blank cs

-- What one `read` gives: data, the end or ECONNRESET, EAGAIN or EWOULDBLOCK, or another error.
pub data ReadResult : Type 0 where
  received : Text → ReadResult
  ended : ReadResult
  would_block : ReadResult
  failed : ReadResult

-- The loop of `handle_client` on the buffer, over the reads to come: the buffer that it ends with,
-- or `none` where it closes the client. Past the list there is no data: EAGAIN.
unfoldable pub read_loop : List ReadResult → Text → Option Text
unfolding has_blank
read_loop [] buf = some buf
read_loop (received chunk ∷ reads) buf =
    let later = read_loop reads (buf ++ chunk) in
    if has_blank (buf ++ chunk) then some (buf ++ chunk) else later
read_loop (ended ∷ reads) buf = none
read_loop (would_block ∷ reads) buf = some buf
read_loop (failed ∷ reads) buf = none

unfoldable pub build_response : ℕ → Text → Text → Text
build_response status content_type body =
    http_1_1
    ++ (to_string status
        ++ (space ∷ (if status == 200 then ok_reason else not_found)
            ++ (content_type_header
                ++ (content_type
                    ++ (content_length_header
                        ++ (to_string (length body) ++ (connection_close ++ body)))))))

abbrev pub is_empty : Text → Bool
is_empty [] = true
is_empty (c ∷ cs) = false

-- `handler_ ? handler_(path) : "Not Found"`
abbrev pub body_of : Option (Text → Text) → Text → Text
body_of none path = not_found
body_of (some h) path = h path

-- The rest of `handle_client`: what it writes for the request in the buffer.
unfoldable pub respond : Option (Text → Text) → Text → Text
unfolding parse_path build_response
respond handler buf =
    let path = parse_path buf in
    let body = body_of handler path in
    let content_type = if text_eq path metrics_path then metrics_type else json_type in
    build_response (if is_empty path || is_empty body then 404 else 200) content_type body

-- What is written to the client before it is closed, or `none` if nothing is.
unfoldable pub handle_client : Option (Text → Text) → List ReadResult → Text → Option Text
handle_client handler reads buf = elim (read_loop reads buf) [
  | none ↦ none
  | some whole ↦ some (respond handler whole)
]
