-- ===== src/Folder/Listed.antt =====
-- The names that `visitDir` makes.
use progetto_sol_unipi.Base.{
  ◌+◌, ◌<◌, ◌≤◌, ◌≡◌, refl, sym, ap, subst, ◌∙◌, arith, ◌⊎◌, inl, inr, Bool-cases, true, false,
  List, [], ◌∷◌, ◌++◌, append-nil, append_assoc, ltb, if◌then◌else◌, length, length-append,
}
use progetto_sol_unipi.Base.Command.{ok, and_then-ok}
use progetto_sol_unipi.Memory.State.{Name, max_name}
use progetto_sol_unipi.Folder.{
  max_files, Node, file, folder, Listing, end, entry, is_dots, within, add_name, visit_dir,
  visit_entries, visit_node,
}

-- The files of a folder with this path, those of a folder in it at its place.
abbrev mutual
  pub names_in : Name → Listing → List Name
  names_in path end = []
  names_in path (entry node rest) = names_of path node ++ names_in path rest

  pub names_of : Name → Node → List Name
  names_of path (file name) = if is_dots name then [] else within path name ∷ []
  names_of path (folder name readable listing) =
      let below = names_in (within path name) listing in
      if is_dots name then [] else if readable then below else []

-- The names fit in their buffers, and the path of a folder in a folder, but for the dots, has no
-- link in it.
abbrev pub Short : Name → Type 0
Short name = length name < max_name

module _ (realpath : Name → Name) where
  abbrev mutual
    pub Fits : Name → Listing → Type 0
    Fits path end = Unit {0}
    Fits path (entry node rest) = FitsNode path node × Fits path rest

    pub FitsNode : Name → Node → Type 0
    FitsNode path (file name) = Short (within path name)
    FitsNode path (folder name readable listing) =
        (is_dots name ≡ true)
        ⊎ (Short (within path name)
            × (realpath (within path name) ≡ within path name)
            × Fits (within path name) listing)

  add_name-Short :
      (name : Name) (files : List Name)
      → Short name
      → length files < max_files
      → add_name name files ≡ ok tt (files ++ name ∷ [])
  unfolding add_name
  add_name-Short name files short few =
      let place : ltb (length files) max_files ≡ true = ground arith in
      let buffer : ltb (length name) max_name ≡ true = ground arith in rw place (rw buffer refl)

  mutual
    unfolding visit_entries

    visit_entries-lists :
        (listing : Listing) (path : Name) (files : List Name)
        → Fits path listing
        → length files + length (names_in path listing) ≤ max_files
        → visit_entries realpath path listing files ≡ ok tt (files ++ names_in path listing)
    visit_entries-lists end path files fits few = ap (ok tt) (sym (append-nil files))
    visit_entries-lists (entry node rest) path files (fit, fits) few =
        let parts = length-append (names_of path node) (names_in path rest) in
        and_then-ok _ _ (visit_node-lists node path files fit (omega (arith, parts))) (
          visit_entries-lists rest path (files ++ names_of path node) fits
            (omega (arith, parts, length-append files (names_of path node)))
          ∙ ap (ok tt) (append_assoc files (names_of path node) (names_in path rest)))

    visit_node-lists :
        (node : Node) (path : Name) (files : List Name)
        → FitsNode path node
        → length files + length (names_of path node) ≤ max_files
        → visit_node realpath path node files ≡ ok tt (files ++ names_of path node)
    visit_node-lists (file name) path files short few = elim (Bool-cases (is_dots name)) [
      | inl y ↦ rw y (ap (ok tt) (sym (append-nil files)))
      | inr n ↦
          let one : length (names_of path (file name)) ≡ 1 = rw n refl in
          rw n (add_name-Short (within path name) files short (omega arith))
    ]
    visit_node-lists (folder name false listing) path files (inl y) few =
        rw y (ap (ok tt) (sym (append-nil files)))
    visit_node-lists (folder name false listing) path files (inr (short, same, fits)) few =
        let buffer : ltb (length (within path name)) max_name ≡ true = ground arith in
        elim (Bool-cases (is_dots name)) [
          | inl y ↦ rw y (ap (ok tt) (sym (append-nil files)))
          | inr n ↦ rw n (rw (buffer, same) (rw buffer (ap (ok tt) (sym (append-nil files)))))
        ]
    visit_node-lists (folder name true listing) path files (inl y) few =
        rw y (ap (ok tt) (sym (append-nil files)))
    visit_node-lists (folder name true listing) path files (inr (short, same, fits)) few =
        let buffer : ltb (length (within path name)) max_name ≡ true = ground arith in
        elim (Bool-cases (is_dots name)) [
          | inl y ↦ rw y (ap (ok tt) (sym (append-nil files)))
          | inr n ↦
              let all : names_of path (folder name true listing)
                  ≡ names_in (within path name) listing =
                rw n refl in
              let few' : length files + length (names_in (within path name) listing) ≤ max_files =
                subst (λ l. length files + length l ≤ max_files) all few in
              rw n (
                rw (buffer, same)
                  (rw buffer (visit_entries-lists listing (within path name) files fits few')))
        ]

  -- `visitDir` adds the paths of all files of the folder and of the folders in it, in the order in
  -- which the system lists them, a folder's own files at its place: if the paths fit in their
  -- buffers, there are at most 1024 files with those found before, and the paths of the folders in
  -- it have no links. What `opendir` cannot open is left out.
  pub visit_dir-names_in :
      (pathname : Name) (listing : Listing) (files : List Name)
      → Short (realpath pathname)
      → Fits (realpath pathname) listing
      → length files + length (names_in (realpath pathname) listing) ≤ max_files
      → visit_dir realpath pathname true listing files
        ≡ ok tt (files ++ names_in (realpath pathname) listing)
  unfolding visit_dir
  visit_dir-names_in pathname listing files short fits few =
      let buffer : ltb (length (realpath pathname)) max_name ≡ true = ground arith in
      rw buffer (visit_entries-lists listing (realpath pathname) files fits few)
