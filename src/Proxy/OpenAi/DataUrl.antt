-- ===== src/Proxy/OpenAi/DataUrl.antt =====
-- Images in the OpenAI format of src/proxy/transforms/openai.ts: a URL, or the data in a `data:` URL.
use Prim.Native.Char.{Char, code}
use text.Mathlib.Text.{starts_with}
use text.Mathlib.TextLemmas.{cons-append}
use text.Mathlib.TextPositions.{starts_with-append}
use prism_pipe.Prelude.{
  ◌≡◌, refl, sym, Bool, ◌||◌, Option, none, some, String, strip, take_until, drop_until, non_empty,
  strip-append, until-append, str_append, ◌==◌, if◌then◌else◌, arith,
}
use prism_pipe.Core.Canonical.{ImageSource, base64, url}
use prism_pipe.Proxy.Json.{◌>>=◌}

abbrev pub semicolon : Char
semicolon = ";"

abbrev pub is_semicolon : Char → Bool
is_semicolon c = code c == 59

-- What `.` does not match.
abbrev pub is_line_end : Char → Bool
is_line_end c = code c == 10 || code c == 13 || code c == 8232 || code c == 8233

-- `url.match(/^data:([^;]+);base64,(.+)/)`
unfoldable pub match_data : String → Option (String × String)
match_data u = do
  rest ← strip "data:" u
  media_type ← non_empty (take_until is_semicolon rest)
  tail ← strip ";base64," (drop_until is_semicolon rest)
  bytes ← non_empty (take_until is_line_end tail)
  some (media_type, bytes)

abbrev pub source_or : Option (String × String) → String → ImageSource
source_or none u = url u
source_or (some found) u = base64 found.0 found.1

unfoldable pub image_of : String → ImageSource
unfolding match_data
image_of u = if starts_with u "data:" then source_or (match_data u) u else url u

-- `src.type === 'base64' ? data:${src.mediaType};base64,${src.data} : src.url`
abbrev pub data_url : String → String → String
data_url media_type bytes = str_append "data:" (str_append media_type (str_append ";base64," bytes))

abbrev pub url_of : ImageSource → String
url_of (base64 media_type bytes) = data_url media_type bytes
url_of (url u) = u

-- No character of the text ends it, and it has one.
abbrev pub Whole : (Char → Bool) → String → Type 0
Whole ends s = (take_until ends s ≡ s) × (non_empty s ≡ some s)

-- An image that a URL can hold: a media type without a semicolon and data on one line, neither empty,
-- or a URL that does not read as such.
abbrev pub IsSource : ImageSource → Type 0
IsSource (base64 media_type bytes) = Whole is_semicolon media_type × Whole is_line_end bytes
IsSource (url u) = match_data u ≡ none

match_data-data_url :
    (media_type bytes : String)
    → Whole is_semicolon media_type
    → Whole is_line_end bytes
    → match_data (data_url media_type bytes) ≡ some (media_type, bytes)
unfolding match_data
match_data-data_url m b wm wb =
    let u = until-append is_semicolon semicolon m (str_append "base64," b) refl wm.0 in
    let split = cons-append semicolon "base64," b in
    rw
      (
        strip-append "data:" (str_append m (str_append ";base64," b)),
        ◌>>=◌,
        split,
        u.0,
        u.1,
        wm.1,
        sym split,
        strip-append ";base64," b,
        wb.0,
        wb.1,
      )
      refl

pub image_of-url_of : (s : ImageSource) → IsSource s → image_of (url_of s) ≡ s
unfolding image_of
image_of-url_of (base64 m b) (wm, wb) =
    rw
      (
        starts_with-append "data:" (str_append m (str_append ";base64," b)),
        match_data-data_url m b wm wb,
      )
      refl
image_of-url_of (url u) e = rw e (ground arith)
