-- ===== src/Drive/Links.antt =====
-- app/pipeline/ingest.py: `_drive_to_direct` on the links that Google Drive shares.
use right_hire.Base.{
  ℕ, ◌≡◌, refl, false, none, some, [], ◌∷◌, ◌++◌, arith, Text, text, All, All-append, is_empty,
  ◌==◌,
}
use right_hire.Drive.{until, search_id, slash, ampersand, drive_to_direct}

-- None of the code points is the given one.
abbrev pub Lacks : ℕ → Text → Type 0
Lacks stop = All (λ c. (c == stop) ≡ false)

until-slash : (id rest : Text) → Lacks slash id → until slash (id ++ slash ∷ rest) ≡ id
until-slash [] rest h = refl
until-slash (c ∷ id) rest h = ground (arith, until-slash id rest h.1)

until-ampersand :
    (id rest : Text) → Lacks ampersand id → until ampersand (id ++ ampersand ∷ rest) ≡ id
until-ampersand [] rest h = refl
until-ampersand (c ∷ id) rest h = ground (arith, until-ampersand id rest h.1)

until_end : (id : Text) → Lacks ampersand id → until ampersand id ≡ id
until_end [] h = refl
until_end (c ∷ id) h = ground (arith, until_end id h.1)

no_slash : (t : Text) → Lacks slash t → search_id (text "/file/d/") slash t ≡ none
no_slash [] h = refl
no_slash (c ∷ t) h = ground (arith, no_slash t h.1)

-- Where the host and the path of a link end, the id is found.
file_link :
    (t id : Text)
    → until slash t ≡ id
    → is_empty id ≡ false
    → search_id (text "/file/d/") slash (text "https://drive.google.com/file/d/" ++ t) ≡ some id
file_link t id h full = rw (h, full) refl

open_link :
    (t id : Text)
    → until ampersand t ≡ id
    → is_empty id ≡ false
    → Lacks slash t
    → (search_id (text "/file/d/") slash (text "https://drive.google.com/open?id=" ++ t) ≡ none)
      × (search_id (text "id=") ampersand (text "https://drive.google.com/open?id=" ++ t) ≡ some id)
open_link t id found full h = (no_slash t h, rw (found, full) refl)

Lacks-more :
    (stop : ℕ) (id more : Text)
    → (stop == ampersand) ≡ false
    → Lacks stop id
    → Lacks stop more
    → Lacks stop (id ++ ampersand ∷ more)
Lacks-more stop id more apart h k =
    All-append (λ c. (c == stop) ≡ false) id (ampersand ∷ more) h (ground (arith, apart), k)

-- Three kinds of link that Google Drive shares give the link to the download with their id, where the
-- id is not empty and has neither a slash nor an ampersand: a file link, whatever follows the id, an
-- open link, and an open link with further parameters that have no slash.
pub drive_to_direct-id :
    (id rest more : Text)
    → is_empty id ≡ false
    → Lacks slash id
    → Lacks ampersand id
    → Lacks slash more
    → (drive_to_direct (text "https://drive.google.com/file/d/" ++ (id ++ slash ∷ rest))
        ≡ text "https://drive.google.com/uc?export=download&id=" ++ id)
      × (drive_to_direct (text "https://drive.google.com/open?id=" ++ id)
          ≡ text "https://drive.google.com/uc?export=download&id=" ++ id)
      × (drive_to_direct (text "https://drive.google.com/open?id=" ++ (id ++ ampersand ∷ more))
          ≡ text "https://drive.google.com/uc?export=download&id=" ++ id)
unfolding drive_to_direct
drive_to_direct-id id rest more full h k m =
    let opened = open_link id id (until_end id k) full h in
    let further =
      open_link (id ++ ampersand ∷ more) id (until-ampersand id more k) full
        (Lacks-more slash id more refl h m) in
    (
      rw (drive_to_direct, file_link (id ++ slash ∷ rest) id (until-slash id rest h) full) refl,
      rw (drive_to_direct, opened.0, opened.1) refl,
      rw (drive_to_direct, further.0, further.1) refl,
    )
