-- ===== src/Http/Files.antt =====
-- Routing and static files: on_request, serve_file and mime_for_ext of src/http_server.cpp.
--
-- The file system is a parameter: realpath(), and what reading a file yields.
use bms_bridge.Base.{
  ◌≡◌, refl, sym, ap, ◌∙◌, [], ◌∷◌, ◌++◌, append_assoc, Option, none, some, some_inj, true,
  Bool-cases, inl, inr, ◌==◌, ◌||◌, not, if◌then◌else◌, ◌>>=◌, bind-eq-some, take, drop, length,
  take-append-drop, Bytes, same_name, same_name_eq,
}

pub record FileSystem : Type 0 where
  pub realpath : Bytes → Option Bytes
  pub read : Bytes → Option Bytes

pub data Mime : Type 0 where
  octet_stream html css javascript json svg png jpeg icon woff woff2 ttf plain : Mime

-- path.substr(path.rfind('.'))
unfoldable pub extension : Bytes → Option Bytes
extension [] = none
extension (c ∷ cs) = elim (extension cs) [
  | some ext ↦ some ext
  | none ↦ if c == b'.' then some (c ∷ cs) else none
]

unfoldable pub mime_of : Bytes → Mime
mime_of ext =
    if same_name ext (b'.' ∷ b'h' ∷ b't' ∷ b'm' ∷ b'l' ∷ [])
      || same_name ext (b'.' ∷ b'h' ∷ b't' ∷ b'm' ∷ [])
    then html
    else if same_name ext (b'.' ∷ b'c' ∷ b's' ∷ b's' ∷ [])
    then css
    else if same_name ext (b'.' ∷ b'j' ∷ b's' ∷ [])
    then javascript
    else if same_name ext (b'.' ∷ b'j' ∷ b's' ∷ b'o' ∷ b'n' ∷ [])
    then json
    else if same_name ext (b'.' ∷ b's' ∷ b'v' ∷ b'g' ∷ [])
    then svg
    else if same_name ext (b'.' ∷ b'p' ∷ b'n' ∷ b'g' ∷ [])
    then png
    else if same_name ext (b'.' ∷ b'j' ∷ b'p' ∷ b'g' ∷ [])
        || same_name ext (b'.' ∷ b'j' ∷ b'p' ∷ b'e' ∷ b'g' ∷ [])
    then jpeg
    else if same_name ext (b'.' ∷ b'i' ∷ b'c' ∷ b'o' ∷ [])
    then icon
    else if same_name ext (b'.' ∷ b'w' ∷ b'o' ∷ b'f' ∷ b'f' ∷ [])
    then woff
    else if same_name ext (b'.' ∷ b'w' ∷ b'o' ∷ b'f' ∷ b'f' ∷ b'2' ∷ [])
    then woff2
    else if same_name ext (b'.' ∷ b't' ∷ b't' ∷ b'f' ∷ [])
    then ttf
    else if same_name ext (b'.' ∷ b't' ∷ b'x' ∷ b't' ∷ [])
    then plain
    else octet_stream

unfoldable pub mime_for_ext : Bytes → Mime
unfolding extension mime_of
mime_for_ext path = elim (extension path) [ none ↦ octet_stream | some ext ↦ mime_of ext ]

-- The 404 of serve_file is none. The test is the prefix comparison behind the two realpath calls.
unfoldable pub serve_resolved :
    FileSystem → (root_resolved resolved : Bytes) → Option (Mime × Bytes)
unfolding mime_for_ext
serve_resolved fs root_resolved resolved =
    let root_s = root_resolved ++ b'/' ∷ [] in
    if not (same_name (take (length root_s) resolved) root_s)
    then none
    else (fs.read resolved >>= λ body. some (mime_for_ext resolved, body))

unfoldable pub serve_file : FileSystem → (www_root path : Bytes) → Option (Mime × Bytes)
unfolding serve_resolved
serve_file fs www_root path = fs.realpath (www_root ++ path) >>= λ resolved.
    fs.realpath www_root >>= λ root_resolved. serve_resolved fs root_resolved resolved

pub data Route : Type 0 where
  bad_uri : Route
  to_info : Route
  to_batteries : Route
  to_history : Route
  to_daily : Route
  to_file : Bytes → Route

abbrev index_html : Bytes
index_html = b'/' ∷ b'i' ∷ b'n' ∷ b'd' ∷ b'e' ∷ b'x' ∷ b'.' ∷ b'h' ∷ b't' ∷ b'm' ∷ b'l' ∷ []

unfoldable pub route : Bytes → Route
route path =
    if same_name path (b'/' ∷ b'i' ∷ b'n' ∷ b'f' ∷ b'o' ∷ [])
    then to_info
    else if same_name path
        (b'/' ∷ b'b' ∷ b'a' ∷ b't' ∷ b't' ∷ b'e' ∷ b'r' ∷ b'i' ∷ b'e' ∷ b's' ∷ [])
    then to_batteries
    else if same_name path (b'/' ∷ b'h' ∷ b'i' ∷ b's' ∷ b't' ∷ b'o' ∷ b'r' ∷ b'y' ∷ [])
    then to_history
    else if same_name path (b'/' ∷ b'd' ∷ b'a' ∷ b'i' ∷ b'l' ∷ b'y' ∷ [])
    then to_daily
    else to_file path

-- By the URI's path, if it parses and has one.
unfoldable pub on_request : Option (Option Bytes) → Route
unfolding route
on_request none = bad_uri
on_request (some none) = route index_html
on_request (some (some path)) = route (if same_name path (b'/' ∷ []) then index_html else path)

-- The file that `path` names: it resolves to a path below the resolved root.
abbrev pub ServedFrom : FileSystem → (www_root path : Bytes) → Mime → Bytes → Type 0
ServedFrom fs www_root path mime body =
    (root rest : Bytes) × (fs.realpath www_root ≡ some root)
    × (fs.realpath (www_root ++ path) ≡ some (root ++ b'/' ∷ rest))
    × (fs.read (root ++ b'/' ∷ rest) ≡ some body)
    × (mime ≡ mime_for_ext (root ++ b'/' ∷ rest))

none_is_some : {A : Type 0} {a : A} → none ≡ some a → ⊥
none_is_some e = cc

prefix_rest :
    (root resolved : Bytes)
    → same_name (take (length root) resolved) root ≡ true
    → resolved ≡ root ++ drop (length root) resolved
prefix_rest root resolved e =
    sym (take-append-drop (length root) resolved)
    ∙ ap (λ p. p ++ drop (length root) resolved) (same_name_eq _ _ e)

-- A file that is served behind the test.
abbrev Below : FileSystem → (root resolved : Bytes) → Mime → Bytes → Type 0
Below fs root resolved mime body =
    (rest : Bytes) × (resolved ≡ root ++ b'/' ∷ rest)
    × (fs.read resolved ≡ some body)
    × (mime ≡ mime_for_ext resolved)

serve_resolved-Below :
    (fs : FileSystem) (root resolved : Bytes) (mime : Mime) (body : Bytes)
    → serve_resolved fs root resolved ≡ some (mime, body)
    → Below fs root resolved mime body
unfolding serve_resolved
serve_resolved-Below fs root resolved mime body e =
    let root_s = root ++ b'/' ∷ [] in
    elim (Bool-cases (same_name (take (length root_s) resolved) root_s)) [
      | inl t ↦
          let opened : (fs.read resolved >>= λ b. some (mime_for_ext resolved, b))
              ≡ some (mime, body) =
            sym (rw (t, serve_resolved) refl) ∙ e in
          let (content, r, same) = bind-eq-some (fs.read resolved) _ opened in
          (
            drop (length root_s) resolved,
            prefix_rest root_s resolved t ∙ append_assoc root (b'/' ∷ []) _,
            r ∙ ap (λ (p : Option (Mime × Bytes)). p >>= λ q. some q.1) same,
            sym (some_inj (ap (λ (p : Option (Mime × Bytes)). p >>= λ q. some q.0) same)),
          )
      | inr t ↦ absurd (none_is_some (sym (rw (t, serve_resolved) refl) ∙ e))
    ]

-- Whatever path is asked for: a file that is served stands, by its resolved path, below the resolved
-- root directory, and its content is sent with the type that its path has.
pub serve_file-ServedFrom :
    (fs : FileSystem) (www_root path : Bytes) (mime : Mime) (body : Bytes)
    → serve_file fs www_root path ≡ some (mime, body)
    → ServedFrom fs www_root path mime body
unfolding serve_file
serve_file-ServedFrom fs www_root path mime body e =
    let (resolved, found, e1) = bind-eq-some (fs.realpath (www_root ++ path)) _ e in
    let (root, at_root, e2) = bind-eq-some (fs.realpath www_root) _ e1 in
    let (rest, below, content, type) = serve_resolved-Below fs root resolved mime body e2 in
    (
      root,
      rest,
      at_root,
      found ∙ ap some below,
      ap fs.read (sym below) ∙ content,
      type ∙ ap mime_for_ext below,
    )
