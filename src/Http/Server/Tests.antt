-- ===== src/Http/Server/Tests.antt =====
-- Tests of the server's texts, and the theorems at concrete requests.
use ebpf_system_monitor.Base.{arith, false, ◌≡◌, refl, some, [], ◌∷◌, ◌++◌, Text}
use ebpf_system_monitor.Http.Texts.{json_type}
use ebpf_system_monitor.Http.Server.{
  received, would_block, has_blank, space, respond, handle_client, build_response, body_of,
}
use ebpf_system_monitor.Http.Server.Framing.{
  receive, status_line, type_line, length_line, close_line, receive-build_response,
}
use ebpf_system_monitor.Http.Server.Reading.{
  reads_of, joined, handle_client-chunks, handle_client-cut,
}

-- "GET", "/stats", "HTTP/1.1" and the end of the header.
abbrev get : Text
get = 71 ∷ 69 ∷ 84 ∷ []

abbrev stats_path : Text
stats_path = 47 ∷ 115 ∷ 116 ∷ 97 ∷ 116 ∷ 115 ∷ []

abbrev rest_of_header : Text
rest_of_header = 72 ∷ 84 ∷ 84 ∷ 80 ∷ 47 ∷ 49 ∷ 46 ∷ 49 ∷ 13 ∷ 10 ∷ 13 ∷ 10 ∷ []

abbrev echo : Text → Text
echo path = path

-- The request in two parts.
abbrev first_part : Text
first_part = get ++ (space ∷ stats_path)

abbrev last_part : Text
last_part = space ∷ rest_of_header

handle_client-chunks_example :
    handle_client (some echo) (reads_of (first_part ∷ []) (received last_part ∷ [])) []
    ≡ some (respond (some echo) (joined (first_part ∷ []) ++ last_part))
unfolding has_blank
handle_client-chunks_example =
    handle_client-chunks (some echo) (first_part ∷ []) last_part [] (refl, tt) refl

handle_client-cut_example :
    handle_client (some echo) (reads_of (get ∷ []) (would_block ∷ [])) []
    ≡ some (build_response 404 json_type (body_of (some echo) []))
unfolding has_blank
handle_client-cut_example =
    handle_client-cut (some echo) (get ∷ []) [] (refl, tt) (refl, (refl, (refl, tt)))

receive-build_response_example :
    receive (build_response 200 json_type (123 ∷ 13 ∷ 10 ∷ 125 ∷ [])) false []
    ≡ some (
      status_line 200 ∷ type_line json_type ∷ length_line 4 ∷ close_line ∷ [],
      123 ∷ 13 ∷ 10 ∷ 125 ∷ [],
    )
receive-build_response_example =
    receive-build_response 200 json_type (123 ∷ 13 ∷ 10 ∷ 125 ∷ []) (omega arith)
