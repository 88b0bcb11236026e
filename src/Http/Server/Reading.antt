-- ===== src/Http/Server/Reading.antt =====
-- What the read loop hands on.
use ebpf_system_monitor.Base.{
  ◌≡◌, ◌∙◌, ap, sym, true, false, Option, some, List, [], ◌∷◌, ◌++◌, append_assoc, append-nil, Text,
}
use ebpf_system_monitor.Http.Server.{
  ReadResult, received, would_block, has_blank, read_loop, respond, handle_client, parse_path,
  body_of, build_response,
}
use ebpf_system_monitor.Http.Texts.{json_type}
use ebpf_system_monitor.Http.Server.RequestLine.{HasNoSpace, parse_path-none}

abbrev pub joined : List Text → Text
joined [] = []
joined (c ∷ cs) = c ++ joined cs

abbrev pub reads_of : List Text → List ReadResult → List ReadResult
reads_of [] rest = rest
reads_of (c ∷ cs) rest = received c ∷ reads_of cs rest

-- With the buffer, no proper part of the chunks from the front on holds an empty line.
abbrev pub NoneComplete : Text → List Text → Type 0
NoneComplete buf [] = Unit {0}
NoneComplete buf (c ∷ cs) = (has_blank (buf ++ c) ≡ false) × NoneComplete (buf ++ c) cs

read_loop-incomplete :
    (chunks : List Text) (rest : List ReadResult) (buf : Text)
    → NoneComplete buf chunks
    → read_loop (reads_of chunks rest) buf ≡ read_loop rest (buf ++ joined chunks)
unfolding read_loop
read_loop-incomplete [] rest buf h = ap (read_loop rest) (sym (append-nil buf))
read_loop-incomplete (c ∷ cs) rest buf h =
    rw (h.0) (read_loop-incomplete cs rest (buf ++ c) h.1)
    ∙ ap (read_loop rest) (append_assoc buf c (joined cs))

handle_client-read :
    (handler : Option (Text → Text)) (reads : List ReadResult) (buf whole : Text)
    → read_loop reads buf ≡ some whole
    → handle_client handler reads buf ≡ some (respond handler whole)
unfolding handle_client
handle_client-read handler reads buf whole e = rw (e, handle_client)

-- A request that arrives in chunks, of which only the last completes the header, is answered
-- for the chunks joined, whatever would be read next.
pub handle_client-chunks :
    (handler : Option (Text → Text)) (chunks : List Text) (last : Text) (rest : List ReadResult)
    → NoneComplete [] chunks
    → has_blank (joined chunks ++ last) ≡ true
    → handle_client handler (reads_of chunks (received last ∷ rest)) []
      ≡ some (respond handler (joined chunks ++ last))
unfolding read_loop
handle_client-chunks handler chunks last rest h complete =
    handle_client-read handler (reads_of chunks (received last ∷ rest)) [] (joined chunks ++ last)
      (read_loop-incomplete chunks (received last ∷ rest) [] h ∙ rw complete)

-- When no more data is there yet, the client is answered for the part of its request that has
-- come, even if the header is not complete.
pub handle_client-partial :
    (handler : Option (Text → Text)) (chunks : List Text) (rest : List ReadResult)
    → NoneComplete [] chunks
    → handle_client handler (reads_of chunks (would_block ∷ rest)) []
      ≡ some (respond handler (joined chunks))
unfolding read_loop
handle_client-partial handler chunks rest h =
    handle_client-read handler (reads_of chunks (would_block ∷ rest)) [] (joined chunks)
      (read_loop-incomplete chunks (would_block ∷ rest) [] h)

respond-no_path :
    (handler : Option (Text → Text)) (part : Text)
    → parse_path part ≡ []
    → respond handler part ≡ build_response 404 json_type (body_of handler [])
unfolding respond
respond-no_path handler part e = rw (e, respond)

-- A request of which only a part without a space has come is answered with 404, though the rest of
-- it may follow.
pub handle_client-cut :
    (handler : Option (Text → Text)) (chunks : List Text) (rest : List ReadResult)
    → NoneComplete [] chunks
    → HasNoSpace (joined chunks)
    → handle_client handler (reads_of chunks (would_block ∷ rest)) []
      ≡ some (build_response 404 json_type (body_of handler []))
handle_client-cut handler chunks rest h none_there =
    handle_client-partial handler chunks rest h
    ∙ ap some (respond-no_path handler (joined chunks) (parse_path-none (joined chunks) none_there))
