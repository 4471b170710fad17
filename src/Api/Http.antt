-- ===== src/Api/Http.antt =====
-- pkg/httputil/httputil.go, and of `net/http` what the handlers use: a response writer.
use rootlesskit.Base.{
  length, take, ltb, ◌==◌, if◌then◌else◌, ℕ, ◌/◌, not, ◌&&◌, Option, none, some, [], ◌++◌, Result,
  reject_if,
}
use rootlesskit.Text.{Bytes, codes, is_empty}
use rootlesskit.Api.{Json}

-- A response writer: the Content-Type of the header map, and once the status line is written the
-- status with the Content-Type that went with it.
pub record Writer : Type 0 where
  pub content_type : Option Bytes
  pub sent : Option (ℕ × Option Bytes)
  pub body : Bytes

abbrev pub new_writer : Writer
new_writer = record { content_type = none; sent = none; body = [] }

-- `w.Header().Set("Content-Type", t)`.
abbrev pub set_content_type : Bytes → Writer → Writer
set_content_type t w = record w { content_type = some t }

-- `w.WriteHeader(code)`: the first call counts, and takes the header map as it is.
unfoldable pub write_header : ℕ → Writer → Writer
write_header code w = elim w.sent [
  | none ↦ record w { sent = some (code, w.content_type) }
  | some line ↦ w
]

-- `w.Write(b)`: writes the status line first if that has not been done.
unfoldable pub write : Bytes → Writer → Writer
unfolding write_header
write b w = let w' = write_header 200 w in record w' { body = w'.body ++ b }

-- A response as the client sees it.
pub record Response : Type 0 where
  pub code : ℕ
  pub content_type : Option Bytes
  pub body : Bytes

line_of : Option (ℕ × Option Bytes) → ℕ × Option Bytes
line_of none = (200, none)
line_of (some line) = line

-- At the end of a handler.
unfoldable pub respond : Writer → Response
unfolding line_of
respond w = record { code = (line_of w.sent).0; content_type = (line_of w.sent).1; body = w.body }

abbrev pub json_type : Bytes
json_type = codes "application/json"

write_some : Option Bytes → Writer → Writer
write_some none w = w
write_some (some b) w = write b w

-- `WriteError`, of an error by its text. The Content-Type is set after the status line.
unfoldable pub write_error : Json → Bytes → ℕ → Writer → Writer
unfolding write write_some
write_error json message ec w =
    write_some (json.error.marshal message) (set_content_type json_type (write_header ec w))

-- `w.Header().Set(...); w.WriteHeader(code); w.Write(m)`.
unfoldable pub write_json : ℕ → Bytes → Writer → Writer
unfolding write
write_json code m w = write m (write_header code (set_content_type json_type w))

-- `HTTPStatusErrorBodyMaxLength`.
abbrev pub max_error_body : ℕ
max_error_body = 65536

pub record HttpStatusError : Type 0 where
  pub status_code : ℕ
  pub body : Bytes

-- `Successful`, with `readAtMost` for the body of the error.
unfoldable pub successful : Response → Result HttpStatusError (Unit {0})
successful r =
    reject_if (not (r.code / 100 == 2))
      (record { status_code = r.code; body = take max_error_body r.body })

-- `Error()`: the message of an ErrorJSON; `none` is the text made of status and body.
unfoldable pub error_message : Json → HttpStatusError → Option Bytes
error_message json e =
    if not (is_empty e.body) && ltb (length e.body) max_error_body
    then json.error.unmarshal e.body
    else none
