-- ===== src/Memory/Files/Contents.antt =====
-- `write_to_file`, `set_file_open` and `set_file_close` against the list of files.
use progetto_sol_unipi.Base.{
  ℕ, zero, suc, ◌+◌, ◌-◌, ◌<◌, ◌≤◌, ◌^◌, ◌≡◌, refl, sym, subst, ap, ◌∙◌, Bool, true, false, List,
  [], ◌∷◌, ◌++◌, append-nil, arith, ltb, ◌==◌, length, take, length-append, length-take,
}
use progetto_sol_unipi.Base.Command.{ok, Returns, returns}
use progetto_sol_unipi.Base.Word.{u32, extend, add64}
use progetto_sol_unipi.Memory.State.{Ptr, null, File, Heap, Server, write, set_file}
use progetto_sol_unipi.Memory.Chain.{
  Cells, total, SameOutside, Points, Chain, link, with_heap, Chain-set_file, SameOutside-write,
  owns-middle, not_null, load_lem, set_file_lem,
}
use progetto_sol_unipi.Memory.Cache.{Holds, total-append}
use progetto_sol_unipi.Memory.Find.{set_file_open, set_file_close}
use progetto_sol_unipi.Memory.Files.{write_loop, write_to_file}

-- The file with more data at its end.
abbrev pub appended : File → List ℕ → File
appended f more = record f { buffer = f.buffer ++ more; used_memory = length (f.buffer ++ more) }

-- The same before the `fflush`.
abbrev streamed : File → List ℕ → File
streamed f more = record f { buffer = f.buffer ++ more }

module _ (s : Server) {p r : Ptr} {f : File} (buffer : List ℕ) (size : ℕ)
    (at : Points s.heap p f r) where
  abbrev first_heap : Heap
  first_heap = write s.heap p (link (streamed f (take size buffer)) r at.back)

  -- One round of the loop writes everything.
  write_loop_lem :
      {r1 : Ptr} (at1 : Points first_heap p (streamed f (take size buffer)) r1)
      → 0 < size
      → size ≤ length buffer
      → size < 2 ^ 31
      → write_loop (size + 1) p buffer size 0 s
        ≡ ok size
            (with_heap s (write first_heap p (link (appended f (take size buffer)) r1 at1.back)))
  unfolding write_loop
  write_loop_lem at1 some_data enough few =
      let rounds : size + 1 ≡ suc (suc (size - 1)) = omega arith in
      let begins : ltb 0 size ≡ true = ground arith in
      let fits : ltb (length buffer) size ≡ false = ground arith in
      let w : u32 (extend 0 + size) ≡ size = omega arith in
      let ends : ltb (extend size) size ≡ false = ground arith in
      rw (rounds, begins, fits)
        (rw (set_file_lem s at (λ f. record f { buffer = f.buffer ++ take size buffer })) (
          rw
            (set_file_lem (with_heap s first_heap) at1
              (λ f. record f { used_memory = length f.buffer }))
            (rw (w, ends))))

module _ (s : Server) (ys : Cells) (p : Ptr) (f : File) (zs : Cells)
    (h : Holds s (ys ++ (p, f) ∷ zs)) where
  -- The list after a change of one file, and of the count of memory.
  Holds-changed :
      (g : File) (more : ℕ) (heap : Heap)
      → g.used_memory ≡ f.used_memory + more
      → total (ys ++ (p, f) ∷ zs) + more < 2 ^ 63
      → Chain heap null s.memory (ys ++ (p, g) ∷ zs)
      → Holds
          (record s { heap = heap; n_current_memory_used = add64 s.n_current_memory_used more })
          (ys ++ (p, g) ∷ zs)
  Holds-changed g more heap e room ch =
      let n = length-append ys ((p, g) ∷ zs) in
      let n' = length-append ys ((p, f) ∷ zs) in
      let m = total-append ys ((p, g) ∷ zs) in
      let m' = total-append ys ((p, f) ∷ zs) in
      record {
        chain = ch;
        files = omega arith;
        used = omega arith;
        few = omega arith;
        small = omega arith;
      }

  -- `set_file_open` and `set_file_close` change the flag of the one file.
  abbrev Flagged : Bool → Server → Type 0
  Flagged b t =
      Holds t (ys ++ (p, record f { is_open = b }) ∷ zs)
      × SameOutside (ys ++ (p, f) ∷ zs) s.heap t.heap

  flag : (b : Bool) → Returns (λ _ t. Flagged b t) (set_file p (λ f. record f { is_open = b }) s)
  flag b =
      let g = record f { is_open = b } in
      let (r, at, ch) = Chain-set_file ys p f g zs h.chain in
      let n = length-append ys ((p, g) ∷ zs) in
      let n' = length-append ys ((p, f) ∷ zs) in
      let m = total-append ys ((p, g) ∷ zs) in
      let m' = total-append ys ((p, f) ∷ zs) in
      rw (set_file_lem s at (λ f. record f { is_open = b })) (
        returns (
          record {
            chain = ch;
            files = omega arith;
            used = omega arith;
            few = omega arith;
            small = omega arith;
          },
          SameOutside-write (ys ++ (p, f) ∷ zs) s.heap s.heap p _ (owns-middle ys (p, f) zs)
              λ a i. refl,
        ))

  here : (p == null) ≡ false
  here = not_null (Chain-set_file ys p f f zs h.chain).1

  pub set_file_open-Flagged : Returns (λ _ t. Flagged true t) (set_file_open p s)
  unfolding set_file_open
  set_file_open-Flagged = rw here (flag true)

  pub set_file_close-Flagged : Returns (λ _ t. Flagged false t) (set_file_close p s)
  unfolding set_file_close
  set_file_close-Flagged = rw here (flag false)

  abbrev Written : ℕ → List ℕ → ℕ → Server → Type 0
  Written size more r t =
      (r ≡ size)
      × Holds t (ys ++ (p, appended f more) ∷ zs)
      × SameOutside (ys ++ (p, f) ∷ zs) s.heap t.heap

  write_some :
      (buffer : List ℕ) (size : ℕ)
      → 0 < size
      → size ≤ length buffer
      → size < 2 ^ 31
      → f.used_memory ≡ length f.buffer
      → total (ys ++ (p, f) ∷ zs) + size < 2 ^ 63
      → Returns (Written size (take size buffer)) (write_to_file p buffer size s)
  unfolding write_to_file
  write_some buffer size some_data enough few flushed room =
      let more = take size buffer in
      let (r, at, ch) = Chain-set_file ys p f (streamed f more) zs h.chain in
      let h1 = write s.heap p (link (streamed f more) r at.back) in
      let (r1, at1, ch1) = Chain-set_file ys p (streamed f more) (appended f more) zs ch in
      let h2 = write h1 p (link (appended f more) r1 at1.back) in
      let own = owns-middle ys (p, f) zs in
      let old = ys ++ (p, f) ∷ zs in
      let plain : extend size ≡ size = ground arith in
      let len = length-append f.buffer more in
      rw (load_lem s at) (
        rw (write_loop_lem s buffer size at at1 some_data enough few, plain)
          (returns (
            refl,
            Holds-changed (appended f more) size h2 (omega (arith, length-take size buffer)) room
                ch1,
            SameOutside-write old s.heap h1 p _ own
                (SameOutside-write old s.heap s.heap p _ own λ a i. refl),
          )))

  nothing_appended : f.used_memory ≡ length f.buffer → appended f [] ≡ f
  nothing_appended flushed =
      let e = append-nil f.buffer in
      λ i. record {
        buffer = e i;
        used_memory = (ap length e ∙ sym flushed) i;
        filename = f.filename;
        is_open = f.is_open;
      }

  write_none :
      (buffer : List ℕ)
      → f.used_memory ≡ length f.buffer
      → Returns (Written 0 []) (write_to_file p buffer 0 s)
  unfolding write_to_file write_loop
  write_none buffer flushed =
      let (r, at, ch) = Chain-set_file ys p f f zs h.chain in
      rw (load_lem s at) (
        returns (
          refl,
          Holds-changed (appended f []) 0 s.heap
              (omega (arith, ap (λ g. g.used_memory) (nothing_appended flushed))) (omega arith)
              (subst (λ g. Chain s.heap null s.memory (ys ++ (p, g) ∷ zs))
                (sym (nothing_appended flushed)) h.chain),
          λ a i. refl,
        ))

  -- A write of `size` bytes, fewer than 2 ^ 31 and all of them in the buffer, to a file of the list
  -- whose size is that of its contents, ends and answers `size`; the bytes stand at the end of the
  -- file, whose size and the memory in use have grown by `size`, and no other file has changed.
  pub write_to_file-Written :
      (buffer : List ℕ) (size : ℕ)
      → size ≤ length buffer
      → size < 2 ^ 31
      → f.used_memory ≡ length f.buffer
      → total (ys ++ (p, f) ∷ zs) + size < 2 ^ 63
      → Returns (Written size (take size buffer)) (write_to_file p buffer size s)
  write_to_file-Written buffer zero enough few flushed room = write_none buffer flushed
  write_to_file-Written buffer (suc n) enough few flushed room =
      write_some buffer (suc n) (omega arith) enough few flushed room
