-- ===== src/Frontend/Inside.antt =====
-- app/main.py `_safe_candidate` and `serve_frontend`: which files are served.
use office_attendance_backen.Base.{
  String, str_eq, eq_iff, true, none, some, [], ◌∷◌, ◌++◌, ◌≡◌, refl, ◌⊎◌, inl, inr, arith,
  Bool-cases,
}
use office_attendance_backen.Session.{ok, Result-cases}
use office_attendance_backen.Frontend.{
  FilePath, Files, Resolved, resolved, unreadable, raised, is_relative_to, join, path_of,
  FileResponse, serve_file, safe_candidate, serve_frontend,
}

is_relative_to_lem :
    (path root : FilePath)
    → is_relative_to path root ≡ true
    → (rest : FilePath) × (path ≡ root ++ rest)
is_relative_to_lem path [] h = (path, refl)
is_relative_to_lem [] (d ∷ ds) h = ground arith
is_relative_to_lem (p ∷ ps) (d ∷ ds) h =
    let (rest, below) = is_relative_to_lem ps ds (ground arith) in
    (rest, ground (arith, below, (eq_iff p d).0 (ground arith)))

Resolved-cases :
    (r : Resolved) → ((p : FilePath) × (r ≡ resolved p)) ⊎ (r ≡ unreadable) ⊎ (r ≡ raised)
Resolved-cases (resolved p) = inl (p, refl)
Resolved-cases unreadable = inr (inl refl)
Resolved-cases raised = inr (inr refl)

-- A file below the directory that `dist` is, and which exists.
abbrev IsBelow : Files → FilePath → FilePath → Type 0
IsBelow f dist path =
    (root : FilePath) × (rest : FilePath) × (f.resolve dist ≡ resolved root)
    × (path ≡ root ++ rest)
    × (f.is_file path ≡ some true)

safe_candidate-IsBelow :
    (f : Files) (dist : FilePath) (full_path : String) (path : FilePath)
    → safe_candidate f dist full_path ≡ ok (some path)
    → IsBelow f dist path
unfolding safe_candidate
safe_candidate-IsBelow f dist full_path path h =
    elim (Resolved-cases (f.resolve (join dist (path_of full_path)))) [
      | inr (inl e) ↦ ground arith
      | inr (inr e) ↦ ground arith
      | inl (candidate, e) ↦ elim (Resolved-cases (f.resolve dist)) [
        | inr (inl e') ↦ ground arith
        | inr (inr e') ↦ ground arith
        | inl (root, e') ↦
            let inside : is_relative_to candidate root ≡ true = ground arith in
            let same : candidate ≡ path = ground arith in
            let (rest, below) = is_relative_to_lem candidate root inside in
            (root, rest, e', ground (arith, below, same), ground arith)
      ]
    ]

-- What is answered for any target is the index page or a file that exists below the directory that
-- the frontend was built into, whatever `..`, roots and links the target has. The pages in
-- NEVER_CACHE, and no others, are marked as not to be kept.
serve_frontend-IsBelow :
    (f : Files) (dist : FilePath) (full_path : String) (r : FileResponse)
    → serve_frontend f dist full_path ≡ ok r
    → (path : FilePath) × (r ≡ serve_file path)
      × ((path ≡ join dist ("index.html" ∷ [])) ⊎ IsBelow f dist path)
unfolding serve_frontend
serve_frontend-IsBelow f dist full_path r h =
    let index = join dist ("index.html" ∷ []) in
    elim (Bool-cases (str_eq full_path "")) [
      | inl bare ↦ (index, ground arith, inl refl)
      | inr named ↦ elim (Result-cases (safe_candidate f dist full_path)) [
        | inr (e, failed) ↦ ground arith
        | inl (none, missing) ↦ (index, ground arith, inl refl)
        | inl (some path, found) ↦
            (path, ground arith, inr (safe_candidate-IsBelow f dist full_path path found))
      ]
    ]
