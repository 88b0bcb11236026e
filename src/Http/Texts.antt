-- ===== src/Http/Texts.antt =====
-- The literal texts of the responses.
use ebpf_system_monitor.Base.{[], ◌∷◌, Text}

-- "HTTP/1.1 "
abbrev pub http_1_1 : Text
http_1_1 = 72 ∷ 84 ∷ 84 ∷ 80 ∷ 47 ∷ 49 ∷ 46 ∷ 49 ∷ 32 ∷ []

-- "OK"
abbrev pub ok_reason : Text
ok_reason = 79 ∷ 75 ∷ []

-- "Not Found"
abbrev pub not_found : Text
not_found = 78 ∷ 111 ∷ 116 ∷ 32 ∷ 70 ∷ 111 ∷ 117 ∷ 110 ∷ 100 ∷ []

-- "\r\nContent-Type: "
abbrev pub content_type_header : Text
content_type_header =
    13 ∷ 10 ∷ 67 ∷ 111 ∷ 110 ∷ 116 ∷ 101 ∷ 110 ∷ 116 ∷ 45 ∷ 84 ∷ 121 ∷ 112 ∷ 101 ∷ 58 ∷ 32 ∷ []

-- "\r\nContent-Length: "
abbrev pub content_length_header : Text
content_length_header =
    13 ∷ 10 ∷ 67 ∷ 111 ∷ 110 ∷ 116 ∷ 101 ∷ 110 ∷ 116 ∷ 45 ∷ 76 ∷ 101 ∷ 110 ∷ 103 ∷ 116 ∷ 104 ∷ 58
    ∷ 32 ∷ []

-- "\r\nConnection: close\r\n\r\n"
abbrev pub connection_close : Text
connection_close =
    13 ∷ 10 ∷ 67 ∷ 111 ∷ 110 ∷ 110 ∷ 101 ∷ 99 ∷ 116 ∷ 105 ∷ 111 ∷ 110 ∷ 58 ∷ 32 ∷ 99 ∷ 108 ∷ 111
    ∷ 115 ∷ 101 ∷ 13 ∷ 10 ∷ 13 ∷ 10 ∷ []

-- "/metrics"
abbrev pub metrics_path : Text
metrics_path = 47 ∷ 109 ∷ 101 ∷ 116 ∷ 114 ∷ 105 ∷ 99 ∷ 115 ∷ []

-- "text/plain; version=0.0.4; charset=utf-8"
abbrev pub metrics_type : Text
metrics_type =
    116 ∷ 101 ∷ 120 ∷ 116 ∷ 47 ∷ 112 ∷ 108 ∷ 97 ∷ 105 ∷ 110 ∷ 59 ∷ 32 ∷ 118 ∷ 101 ∷ 114 ∷ 115 ∷ 105
    ∷ 111 ∷ 110 ∷ 61 ∷ 48 ∷ 46 ∷ 48 ∷ 46 ∷ 52 ∷ 59 ∷ 32 ∷ 99 ∷ 104 ∷ 97 ∷ 114 ∷ 115 ∷ 101 ∷ 116 ∷ 61
    ∷ 117 ∷ 116 ∷ 102 ∷ 45 ∷ 56 ∷ []

-- "application/json"
abbrev pub json_type : Text
json_type =
    97 ∷ 112 ∷ 112 ∷ 108 ∷ 105 ∷ 99 ∷ 97 ∷ 116 ∷ 105 ∷ 111 ∷ 110 ∷ 47 ∷ 106 ∷ 115 ∷ 111 ∷ 110 ∷ []
