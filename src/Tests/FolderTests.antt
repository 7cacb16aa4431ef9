-- ===== src/Tests/FolderTests.antt =====
-- A folder with a file, a folder and another file.
use progetto_sol_unipi.Base.{◌≡◌, refl, arith, inl, inr, true, false, [], ◌∷◌}
use progetto_sol_unipi.Base.Command.{ok}
use progetto_sol_unipi.Memory.State.{Name}
use progetto_sol_unipi.Folder.{file, folder, Listing, end, entry, visit_dir}
use progetto_sol_unipi.Folder.Listed.{visit_dir-names_in}

-- No path has a link in it.
abbrev no_links : Name → Name
no_links name = name

abbrev listing : Listing
listing = entry (folder (b'.' ∷ []) true end) (
    entry (file (b'a' ∷ [])) (
      entry (folder (b'd' ∷ []) true (entry (file (b'b' ∷ [])) end))
        (entry (folder (b'e' ∷ []) false end) (entry (file (b'c' ∷ [])) end))))

visit_dir-names_in_example :
    visit_dir no_links (b'/' ∷ b't' ∷ []) true listing []
    ≡ ok tt (
        (b'/' ∷ b't' ∷ b'/' ∷ b'a' ∷ [])
        ∷ (b'/' ∷ b't' ∷ b'/' ∷ b'd' ∷ b'/' ∷ b'b' ∷ [])
        ∷ (b'/' ∷ b't' ∷ b'/' ∷ b'c' ∷ [])
        ∷ [])
visit_dir-names_in_example =
    visit_dir-names_in no_links (b'/' ∷ b't' ∷ []) listing [] (omega arith)
      (
        inl refl,
        (
          omega arith,
          (
            inr (omega arith, refl, (omega arith, tt)),
            (inr (omega arith, refl, tt), (omega arith, tt)),
          ),
        ),
      )
      (omega arith)
