-- ===== src/Drive/Fetched.antt =====
-- app/pipeline/ingest.py: `fetch_drive_file`, how it ends and what it leaves.
use right_hire.Base.{
  ℕ, ◌≡◌, refl, inl, inr, Bool, true, false, Option, List, Text, Bool-cases, if◌then◌else◌,
}
use right_hire.Drive.{
  is_drive_url, is_drive_signin_page, Network, Fetch, fetched, private_link, signin_page,
  download_failed, check_drive_link_access, checked, fetch_drive_file, drive_download,
  http_download,
}

-- The end of a download, by what it left and whether the link was found to be private.
abbrev pub Outcome : Bool → Option (List ℕ) → Fetch × Option (List ℕ) → Type 0
Outcome refused old (fetched, content) = (refused ≡ false) × (is_drive_signin_page content ≡ false)
Outcome refused old (signin_page, content) =
    (refused ≡ false) × (is_drive_signin_page content ≡ true)
Outcome refused old (download_failed, content) = refused ≡ false
Outcome refused old (private_link, content) = (refused ≡ true) × (content ≡ old)

checked-Outcome :
    (old : Option (List ℕ)) (r : Bool × Option (List ℕ)) → Outcome false old (checked r)
checked-Outcome old (false, content) = refl
checked-Outcome old (true, content) = elim (Bool-cases (is_drive_signin_page content)) [
  | inl t ↦ rw t (refl, t)
  | inr t ↦ rw t (refl, t)
]

-- A fetch ends as a private link exactly if the check of the link finds it private, and then has
-- downloaded nothing; it returns only where what is stored does not look like a sign-in page, and
-- raises for one that does.
pub fetch_drive_file-Outcome :
    (net : Network) (url : Text) (old : Option (List ℕ))
    → Outcome (check_drive_link_access net url) old (fetch_drive_file net url old)
unfolding fetch_drive_file
fetch_drive_file-Outcome net url old = elim (Bool-cases (check_drive_link_access net url)) [
  | inl t ↦ rw (fetch_drive_file, t) (refl, refl)
  | inr t ↦
      rw (fetch_drive_file, t)
        (checked-Outcome old
          (if is_drive_url url then drive_download net url old else http_download net url old))
]
