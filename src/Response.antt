-- ===== src/Response.antt =====
-- `HttpResponse` of http/httpresponce.cpp: its tables, its state, its header fields and the text of
-- its header.
pub mod Lines
pub mod Framing
pub mod Names
pub mod Send
pub mod Tests
use Prim.Native.String.{String}
use uco.Prelude.{
  ℕ, ◌+◌, ◌-◌, Bool, true, false, not, ◌||◌, List, [], ◌∷◌, ◌++◌, Option, none, some, ◌==◌,
  if◌then◌else◌, length,
}
use uco.Prelude.Bytes.{Bytes, bytes_eq}
use uco.Prelude.Ascii.{ascii}
use uco.Prelude.Decimal.{to_string}
use uco.Text.Chars.{equals_ignore_case}

-- `httpRetCode2StatusString`.
abbrev pub status_table : List (ℕ × String)
status_table =
    (100, "Continue")
    ∷ (101, "Switching Protocols")
    ∷ (102, "Processing")
    ∷ (103, "Early Hints")
    ∷ (200, "OK")
    ∷ (201, "Created")
    ∷ (202, "Accepted")
    ∷ (203, "Non-Authoritative Information")
    ∷ (204, "No Content")
    ∷ (205, "Reset Content")
    ∷ (206, "Partial Content")
    ∷ (207, "Multi-Status")
    ∷ (208, "Already Reported")
    ∷ (226, "IM Used")
    ∷ (300, "Multiple Choices")
    ∷ (301, "Moved Permanently")
    ∷ (302, "Found")
    ∷ (303, "See Other")
    ∷ (304, "Not Modified")
    ∷ (305, "Use Proxy")
    ∷ (307, "Temporary Redirect")
    ∷ (308, "Permanent Redirect")
    ∷ (400, "Bad Request")
    ∷ (401, "Unauthorized")
    ∷ (402, "Payment Required")
    ∷ (403, "Forbidden")
    ∷ (404, "Not Found")
    ∷ (405, "Method Not Allowed")
    ∷ (406, "Not Acceptable")
    ∷ (407, "Proxy Authentication Required")
    ∷ (408, "Request Timeout")
    ∷ (409, "Conflict")
    ∷ (410, "Gone")
    ∷ (411, "Length Required")
    ∷ (412, "Precondition Failed")
    ∷ (413, "Payload Too Large")
    ∷ (414, "URI Too Long")
    ∷ (415, "Unsupported Media Type")
    ∷ (416, "Range Not Satisfiable")
    ∷ (417, "Expectation Failed")
    ∷ (418, "I'm a teapot")
    ∷ (421, "Misdirected Request")
    ∷ (422, "Unprocessable Entity")
    ∷ (423, "Locked")
    ∷ (424, "Failed Dependency")
    ∷ (425, "Too Early")
    ∷ (426, "Upgrade Required")
    ∷ (428, "Precondition Required")
    ∷ (429, "Too Many Requests")
    ∷ (431, "Request Header Fields Too Large")
    ∷ (451, "Unavailable For Legal Reasons")
    ∷ (500, "Internal Server Error")
    ∷ (501, "Not Implemented")
    ∷ (502, "Bad Gateway")
    ∷ (503, "Service Unavailable")
    ∷ (504, "Gateway Timeout")
    ∷ (505, "HTTP Version Not Supported")
    ∷ (506, "Variant Also Negotiates")
    ∷ (507, "Insufficient Storage")
    ∷ (508, "Loop Detected")
    ∷ (510, "Not Extended")
    ∷ (511, "Network Authentication Required")
    ∷ []

-- `pathSuffix2FileType`.
abbrev pub file_types : List (String × String)
file_types =
    (".html", "text/html")
    ∷ (".htm", "text/html")
    ∷ (".xml", "text/xml")
    ∷ (".xhtml", "application/xhtml+xml")
    ∷ (".txt", "text/plain")
    ∷ (".rtf", "application/rtf")
    ∷ (".pdf", "application/pdf")
    ∷ (".doc", "application/msword")
    ∷ (".docx", "application/vnd.openxmlformats-officedocument.wordprocessingml.document")
    ∷ (".xls", "application/vnd.ms-excel")
    ∷ (".xlsx", "application/vnd.openxmlformats-officedocument.spreadsheetml.sheet")
    ∷ (".ppt", "application/vnd.ms-powerpoint")
    ∷ (".pptx", "application/vnd.openxmlformats-officedocument.presentationml.presentation")
    ∷ (".png", "image/png")
    ∷ (".gif", "image/gif")
    ∷ (".jpg", "image/jpeg")
    ∷ (".jpeg", "image/jpeg")
    ∷ (".bmp", "image/bmp")
    ∷ (".svg", "image/svg+xml")
    ∷ (".ico", "image/x-icon")
    ∷ (".webp", "image/webp")
    ∷ (".mp3", "audio/mpeg")
    ∷ (".wav", "audio/wav")
    ∷ (".ogg", "audio/ogg")
    ∷ (".oga", "audio/ogg")
    ∷ (".mid", "audio/midi")
    ∷ (".midi", "audio/midi")
    ∷ (".amr", "audio/amr")
    ∷ (".mp4", "video/mp4")
    ∷ (".mpeg", "video/mpeg")
    ∷ (".mpg", "video/mpeg")
    ∷ (".mov", "video/quicktime")
    ∷ (".avi", "video/x-msvideo")
    ∷ (".wmv", "video/x-ms-wmv")
    ∷ (".flv", "video/x-flv")
    ∷ (".webm", "video/webm")
    ∷ (".ogv", "video/ogg")
    ∷ (".zip", "application/zip")
    ∷ (".tar", "application/x-tar")
    ∷ (".gz", "application/gzip")
    ∷ (".rar", "application/vnd.rar")
    ∷ (".7z", "application/x-7z-compressed")
    ∷ (".css", "text/css")
    ∷ (".js", "application/javascript")
    ∷ (".json", "application/json")
    ∷ (".csv", "text/csv")
    ∷ (".tsv", "text/tab-separated-values")
    ∷ (".md", "text/markdown")
    ∷ (".yaml", "application/x-yaml")
    ∷ (".yml", "application/x-yaml")
    ∷ (".exe", "application/octet-stream")
    ∷ (".bin", "application/octet-stream")
    ∷ (".dll", "application/octet-stream")
    ∷ (".deb", "application/vnd.debian.binary-package")
    ∷ (".iso", "application/x-iso9660-image")
    ∷ (".epub", "application/epub+zip")
    ∷ []

unfoldable pub find_status : List (ℕ × String) → ℕ → Bytes
find_status [] code = []
find_status ((c, text) ∷ l) code = if c == code then ascii text else find_status l code

-- `httpRetCode2StatusString[code]`: a code that is not in the table gets an empty text.
unfoldable pub status_text : ℕ → Bytes
status_text code = find_status status_table code

unfoldable pub find_type : List (String × String) → Bytes → Bytes
find_type [] suffix = ascii "text/plain"
find_type ((s, text) ∷ l) suffix =
    if bytes_eq (ascii s) suffix then ascii text else find_type l suffix

-- `PathSuffix2FileType`.
unfoldable pub path_suffix_to_file_type : Bytes → Bytes
path_suffix_to_file_type suffix = find_type file_types suffix

-- A file of the static resource pool is its size.
pub record Response : Type 0 where
  pub ret_code : ℕ
  pub partial_from : ℕ
  pub partial_to : ℕ
  pub keep_alive_count : ℕ
  pub keep_alive_time : ℕ
  pub keep_alive : Bool
  pub should_gen_error_page : Bool
  pub resource_is_template : Bool
  pub cache : Option ℕ
  pub more_headers : List (Bytes × Bytes)
  pub template_args : List (Bytes × Bytes)
  pub content_type : Bytes
  pub resource_path : Bytes
  pub header : Bytes
  pub content : Bytes

unfoldable pub reset_response : Response → Response
reset_response r = record r {
  ret_code = 0;
  cache = none;
  partial_from = 0;
  partial_to = 0;
  should_gen_error_page = false;
  resource_is_template = false;
  content_type = path_suffix_to_file_type (ascii ".html");
  more_headers = [];
  template_args = [];
  resource_path = [];
  header = [];
  content = [];
}

unfoldable pub reset_content : Response → Response
reset_content r = record r {
  should_gen_error_page = false;
  resource_is_template = false;
  cache = none;
  template_args = [];
  resource_path = [];
  content = [];
}

unfoldable pub gen_error_page_default : ℕ → Response → Response
gen_error_page_default code r = record r {
  resource_path = [];
  cache = none;
  ret_code = code;
  content =
      ascii "<html><title>Error</title>"
      ++ (ascii "<body bgcolor=\"ffffff\">"
          ++ ((to_string code ++ (ascii " - " ++ status_text code))
              ++ ascii "<hr><em>TinyWebServer</em></body></html>"));
  content_type = path_suffix_to_file_type (ascii ".html");
}

-- The loop of `SetHeader` over the fields, with the new field at the end if it finds none.
unfoldable pub overwrite : Bytes → Bytes → List (Bytes × Bytes) → List (Bytes × Bytes)
overwrite key value [] = (key, value) ∷ []
overwrite key value ((k, v) ∷ l) =
    if equals_ignore_case k key then (key, value) ∷ l else (k, v) ∷ overwrite key value l

unfoldable pub set_field : Bytes → Bytes → List (Bytes × Bytes) → List (Bytes × Bytes)
set_field key value l =
    if equals_ignore_case key (ascii "Set-Cookie")
    then l ++ ((key, value) ∷ [])
    else overwrite key value l

unfoldable pub set_header : Bytes → Bytes → Response → Response
set_header key value r = record r { more_headers = set_field key value r.more_headers }

unfoldable pub has_field : Bytes → List (Bytes × Bytes) → Bool
has_field key [] = false
has_field key ((k, v) ∷ l) = if equals_ignore_case k key then true else has_field key l

unfoldable pub with_cache_control : Response → Response
with_cache_control r =
    if has_field (ascii "Cache-Control") r.more_headers
    then r
    else set_header (ascii "Cache-Control") (ascii "no-cache") r

unfoldable pub is_partial : Response → Bool
is_partial r = not (r.partial_from == 0) || not (r.partial_to == 0)

unfoldable pub file_length : Response → Option ℕ → ℕ
file_length r none = length r.content
file_length r (some size) = if is_partial r then r.partial_to - r.partial_from + 1 else size

-- `len` of `GenHttpHeader`.
unfoldable pub content_length : Response → ℕ
content_length r = file_length r r.cache

abbrev pub crlf : Bytes
crlf = 13 ∷ 10 ∷ []

unfoldable pub connection_text : Response → Bytes
connection_text r =
    if r.keep_alive
    then (ascii "keep-alive" ++ crlf)
      ++ (ascii "keep-alive: max="
          ++ (to_string r.keep_alive_count
              ++ (ascii ", timeout=" ++ (to_string r.keep_alive_time ++ crlf))))
    else ascii "close" ++ crlf

unfoldable pub fields_text : List (Bytes × Bytes) → Bytes
fields_text [] = []
fields_text ((key, value) ∷ l) = (key ++ (ascii ": " ++ (value ++ crlf))) ++ fields_text l

unfoldable pub header_text : Response → Bytes
header_text r =
    ascii "HTTP/1.1 "
    ++ (to_string r.ret_code
        ++ (ascii " "
            ++ (status_text r.ret_code
                ++ ((crlf ++ ascii "Connection: ")
                    ++ (connection_text r
                        ++ (fields_text r.more_headers
                            ++ ((ascii "Content-type: " ++ (r.content_type ++ crlf))
                                ++ (ascii "Content-length: "
                                    ++ (to_string (content_length r) ++ (crlf ++ crlf))))))))))

unfoldable pub add_header_text : Response → Response
add_header_text r = record r { header = r.header ++ header_text r }

unfoldable pub gen_http_header : Response → Response
gen_http_header r = add_header_text (with_cache_control r)
