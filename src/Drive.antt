-- ===== src/Drive.antt =====
-- app/pipeline/ingest.py: Google Drive links, the check of their access, and the download of a resume.
-- What the network answers and what gdown writes are arguments; a body is the list of its bytes.
pub mod Links
pub mod Fetched
use right_hire.Base.{
  ℕ, Bool, true, false, not, ◌&&◌, ◌||◌, Option, none, some, List, [], ◌∷◌, ◌++◌, map, Text, text,
  lower, starts_with, contains, any, take, drop, length, is_empty, leb, ◌==◌, if◌then◌else◌,
}

-- `_is_drive_url`
abbrev pub is_drive_url : Text → Bool
is_drive_url url = contains url (text "drive.google.com") || contains url (text "docs.google.com")

-- The longest beginning without the byte `stop`, the match of `[^…]+` where it is not empty.
abbrev pub until : ℕ → Text → Text
until stop [] = []
until stop (c ∷ t) = if c == stop then [] else c ∷ until stop t

-- `re.search(prefix + "([^stop]+)", url).group(1)`: at the first place where the pattern matches.
abbrev pub search_id : Text → ℕ → Text → Option Text
search_id prefix stop [] = none
search_id prefix stop (c ∷ t) =
    let rest = search_id prefix stop t in
    let found = until stop (drop (length prefix) (c ∷ t)) in
    if starts_with (c ∷ t) prefix && not (is_empty found) then some found else rest

abbrev pub slash : ℕ
slash = 47

abbrev pub ampersand : ℕ
ampersand = 38

abbrev pub direct_url : Text → Text
direct_url id = text "https://drive.google.com/uc?export=download&id=" ++ id

-- `_drive_to_direct`
unfoldable pub drive_to_direct : Text → Text
drive_to_direct url = elim (search_id (text "/file/d/") slash url) [
  | some id ↦ direct_url id
  | none ↦ elim (search_id (text "id=") ampersand url) [ some id ↦ direct_url id | none ↦ url ]
]

-- `bytes.lstrip()`
abbrev lstrip_bytes : List ℕ → List ℕ
lstrip_bytes [] = []
lstrip_bytes (c ∷ s) = if (c == 32) || (leb 9 c && leb c 13) then lstrip_bytes s else c ∷ s

-- `_DRIVE_SIGNIN_MARKERS`
abbrev signin_markers : List Text
signin_markers =
    text "Sign in to continue to Google Drive"
    ∷ text "accounts.google.com/ServiceLogin"
    ∷ text "drive-viewer-error"
    ∷ []

-- `_looks_like_signin_bytes`
unfoldable pub looks_like_signin_bytes : List ℕ → Bool
looks_like_signin_bytes head =
    let lowered = lower (lstrip_bytes head) in
    (starts_with lowered (text "<!doctype html") || starts_with lowered (text "<html"))
    && any (λ marker. contains (lower head) (lower marker)) signin_markers

-- `_is_drive_signin_page`, on what is stored; none is an `OSError`.
unfoldable pub is_drive_signin_page : Option (List ℕ) → Bool
unfolding looks_like_signin_bytes
is_drive_signin_page none = false
is_drive_signin_page (some content) = looks_like_signin_bytes (take 4096 content)

-- The answer to a probe: the host after redirects, the content type and the first chunk.
pub record Probe : Type 0 where
  pub final_host : Text
  pub content_type : Text
  pub head : List ℕ

-- A download that writes a file, all of it; or that raises, having written some of it or nothing.
pub data Download : Type 0 where
  complete : List ℕ → Download
  nothing : Download
  broken : Option (List ℕ) → Download

-- `nothing` is a return of gdown without a file.
pub record Network : Type 0 where
  pub probe : Text → Option Probe
  pub gdown : Text → Download
  pub http : Text → Download

-- How `fetch_drive_file` ends.
pub data Fetch : Type 0 where
  fetched private_link signin_page download_failed : Fetch

abbrev pub is_private : Probe → Bool
is_private p =
    contains (lower p.final_host) (text "accounts.google.com")
    || (contains (lower p.content_type) (text "text/html") && looks_like_signin_bytes p.head)

-- `check_drive_link_access`: whether it raises.
unfoldable pub check_drive_link_access : Network → Text → Bool
unfolding drive_to_direct
check_drive_link_access net url =
    if is_drive_url url
    then elim (net.probe (drive_to_direct url)) [ none ↦ false | some p ↦ is_private p ]
    else false

-- What is at the destination after a download, and whether it raised.
abbrev written : Download → Option (List ℕ) → Bool × Option (List ℕ)
written (complete content) old = (true, some content)
written nothing old = (true, old)
written (broken none) old = (false, old)
written (broken (some part)) old = (false, some part)

-- `_http_download`; a completed one has written the file.
abbrev http_download : Network → Text → Option (List ℕ) → Bool × Option (List ℕ)
http_download net url old = written (net.http url) old

-- The `try` around gdown, with the direct download where it raises.
abbrev drive_download : Network → Text → Option (List ℕ) → Bool × Option (List ℕ)
drive_download net url old =
    let tried = written (net.gdown url) old in
    if tried.0 && not (is_drive_signin_page tried.1)
    then tried
    else http_download net (drive_to_direct url) tried.1

abbrev pub checked : Bool × Option (List ℕ) → Fetch × Option (List ℕ)
checked (false, content) = (download_failed, content)
checked (true, content) =
    if is_drive_signin_page content then (signin_page, content) else (fetched, content)

-- `fetch_drive_file`: how it ends, and what is at the destination.
unfoldable pub fetch_drive_file : Network → Text → Option (List ℕ) → Fetch × Option (List ℕ)
unfolding check_drive_link_access is_drive_signin_page
fetch_drive_file net url old =
    if check_drive_link_access net url
    then (private_link, old)
    else checked
        (if is_drive_url url then drive_download net url old else http_download net url old)
