-- ===== src/Transfer/Whole.antt =====
-- `readn` and `writen` against the bytes that wait at a descriptor and those that it has taken.
use progetto_sol_unipi.Base.{
  ℕ, zero, suc, ◌+◌, ◌-◌, ◌<◌, ◌≤◌, ◌≡◌, refl, sym, ap, ◌∙◌, false, List, Option, some, [], ◌∷◌,
  ◌++◌, append_assoc, append-nil, arith, ◌==◌, length, take, length-append,
}
use progetto_sol_unipi.Base.Command.{
  Cmd, Returns, returns, Returns-bind, Returns-mono, Returns-if_false,
}
use progetto_sol_unipi.Transfer.{read_loop, readn, drop, write_bytes, writen}

take-append :
    (xs ys : List ℕ) (n : ℕ) → length xs ≤ n → take n (xs ++ ys) ≡ xs ++ take (n - length xs) ys
take-append [] ys n h = ap (λ k. take k ys) (omega arith)
take-append (x ∷ xs) ys zero h = absurd (omega arith)
take-append (x ∷ xs) ys (suc n) h =
    let e : suc n - suc (length xs) ≡ n - length xs = omega arith in
    rw e (ap (◌∷◌ x) (take-append xs ys n (omega arith)))

module _ {S : Type 0} (waiting : S → List ℕ) where
  -- What `read` promises where bytes wait: some of them, no more than it was asked for, in order.
  pub record Delivered (n : ℕ) (s : S) (r : Option (List ℕ)) (t : S) : Type 0 where
    pub bytes : List ℕ
    pub result : r ≡ some bytes
    pub progress : 0 < length bytes
    pub bounded : length bytes ≤ n
    pub order : waiting s ≡ bytes ++ waiting t

  module _ (read : ℕ → Cmd S (Option (List ℕ)))
      (delivers : (n : ℕ) (s : S)
        → 0 < n
        → 0 < length (waiting s)
        → Returns (Delivered n s) (read n s)) where
    read_loop-whole :
        (rounds n nleft : ℕ) (got : List ℕ) (s : S)
        → nleft < rounds
        → nleft ≤ length (waiting s)
        → Returns
            (λ r t.
              (r ≡ some (got ++ take nleft (waiting s)))
              × (waiting s ≡ take nleft (waiting s) ++ waiting t))
            (read_loop read rounds n nleft got s)
    unfolding read_loop
    read_loop-whole zero n nleft got s fuel enough = absurd (omega arith)
    read_loop-whole (suc rounds) n zero got s fuel enough =
        returns (ap some (sym (append-nil got)), refl)
    read_loop-whole (suc rounds) n (suc k) got s fuel enough =
        let go : (suc k == 0) ≡ false = ground arith in
        Returns-if_false _ _ _ go (
          Returns-bind (delivers (suc k) s (omega arith) (omega arith)) λ r t d.
            let more : (length d.bytes == 0) ≡ false = (let p = d.progress in ground arith) in
            let size = ap length d.order ∙ length-append d.bytes (waiting t) in
            let cut =
              ap (take (suc k)) d.order ∙ take-append d.bytes (waiting t) (suc k) d.bounded in
            rw d.result (
              Returns-if_false _ _ _ more (
                Returns-mono
                  (read_loop-whole rounds n (suc k - length d.bytes) (got ++ d.bytes) t
                    (omega (arith, d.progress)) (omega (arith, d.bounded)))
                  λ o u (e, rest). (
                    e ∙ ap some (append_assoc got d.bytes _ ∙ ap (◌++◌ got) (sym cut)),
                    d.order
                        ∙ ap (◌++◌ d.bytes) rest
                        ∙ sym (append_assoc d.bytes _ (waiting u))
                        ∙ ap (λ l. l ++ waiting u) (sym cut),
                  ))))

    -- If `n` bytes or more wait at a descriptor, `readn` ends with the first `n`, and leaves the
    -- others, in however many parts `read` delivers them.
    pub readn-whole :
        (n : ℕ) (s : S)
        → n ≤ length (waiting s)
        → Returns
            (λ r t. (r ≡ some (take n (waiting s))) × (waiting s ≡ take n (waiting s) ++ waiting t))
            (readn read n s)
    unfolding readn
    readn-whole n s enough = read_loop-whole (n + 1) n n [] s (omega arith) enough

take-drop : (n : ℕ) (xs : List ℕ) → take n xs ++ drop n xs ≡ xs
take-drop zero xs = refl
take-drop (suc n) [] = refl
take-drop (suc n) (x ∷ xs) = ap (◌∷◌ x) (take-drop n xs)

length-drop : (n : ℕ) (xs : List ℕ) → length (drop n xs) ≡ length xs - n
length-drop zero xs = omega arith
length-drop (suc n) [] = omega arith
length-drop (suc n) (x ∷ xs) = omega (arith, length-drop n xs)

module _ {S : Type 0} (written : S → List ℕ) where
  -- What `write` promises on a descriptor that takes data: it takes some of the bytes, the first
  -- ones.
  pub record Accepted (bytes : List ℕ) (s : S) (r : Option ℕ) (t : S) : Type 0 where
    pub count : ℕ
    pub result : r ≡ some count
    pub progress : 0 < count
    pub bounded : count ≤ length bytes
    pub order : written t ≡ written s ++ take count bytes

  module _ (write : List ℕ → Cmd S (Option ℕ))
      (accepts : (bytes : List ℕ) (s : S)
        → 0 < length bytes
        → Returns (Accepted bytes s) (write bytes s)) where
    write_bytes-whole :
        (rounds n : ℕ) (left : List ℕ) (s : S)
        → length left < rounds
        → Returns
            (λ r t. (r ≡ some n) × (written t ≡ written s ++ left))
            (write_bytes write rounds n left s)
    unfolding write_bytes
    write_bytes-whole zero n left s fuel = absurd (omega arith)
    write_bytes-whole (suc rounds) n [] s fuel = returns (refl, sym (append-nil (written s)))
    write_bytes-whole (suc rounds) n (x ∷ xs) s fuel =
        let left = x ∷ xs in
        let go : (length left == 0) ≡ false = ground arith in
        Returns-if_false _ _ _ go (
          Returns-bind (accepts left s (omega arith)) λ r t a.
            let more : (a.count == 0) ≡ false = (let p = a.progress in ground arith) in
            rw (a.result) (
              Returns-if_false _ _ _ more (
                Returns-mono
                  (write_bytes-whole rounds n (drop a.count left) t
                    (omega (arith, a.progress, length-drop a.count left)))
                  λ o u (e, rest). (
                    e,
                    rest
                        ∙ ap (λ l. l ++ drop a.count left) a.order
                        ∙ append_assoc (written s) _ _
                        ∙ ap (◌++◌ (written s)) (take-drop a.count left),
                  ))))

    -- On a descriptor that takes data, `writen` ends with the number of all the bytes, and they
    -- have been written in order, in however many parts `write` takes them.
    pub writen-whole :
        (bytes : List ℕ) (s : S)
        → Returns
            (λ r t. (r ≡ some (length bytes)) × (written t ≡ written s ++ bytes))
            (writen write bytes s)
    unfolding writen
    writen-whole bytes s = write_bytes-whole (length bytes + 1) (length bytes) bytes s (omega arith)
