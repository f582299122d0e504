-- ===== src/Generator/Copy.antt =====
-- The batched COPY that the generators of data-generator share: the loop over the batches, and
-- `for i in range(current_batch_size)` inside it. An exception leaves the connection's block, so that
-- nothing is committed.
use local_data_platform.Prelude.{
  ℕ, zero, suc, ◌+◌, ◌-◌, ◌≤◌, ◌<◌, min, ◌≡◌, refl, sym, ap, subst, ◌∙◌, List, [], ◌++◌, arith,
  Result, ok, err, ◌>>=◌, ltb, bind-eq-ok, ok_inj, if◌then◌else◌, inl, inr, Bool-cases,
}

-- Raised by random.choice and random.sample, and by a COPY or UPDATE that a constraint refuses.
pub data DrawError : Type 0 where
  index_error value_error constraint_violation : DrawError

module _ {A B : Type 0} where
  bind_cong :
      (m : Result DrawError A) (f g : A → Result DrawError B)
      → ((a : A) → f a ≡ g a)
      → m >>= f ≡ m >>= g
  bind_cong (ok a) f g h = h a
  bind_cong (err e) f g h = refl

module _ {A B C : Type 0} where
  bind_assoc :
      (m : Result DrawError A) (f : A → Result DrawError B) (g : B → Result DrawError C)
      → m >>= (λ a. f a >>= g) ≡ m >>= f >>= g
  bind_assoc (ok a) f g = refl
  bind_assoc (err e) f g = refl

module _ {A : Type 0} (row : ℕ → Result DrawError (List A)) where
  -- The rows for a number of indices from `i` on, after those that are written.
  unfoldable pub write_from : ℕ → ℕ → List A → Result DrawError (List A)
  write_from i zero rows = ok rows
  write_from i (suc n) rows = do new ← row i; write_from (i + 1) n (rows ++ new)

  unfoldable pub copy_loop : ℕ → ℕ → ℕ → ℕ → List A → Result DrawError (List A)
  unfolding write_from
  copy_loop zero batch_size total done rows = ok rows
  copy_loop (suc fuel) batch_size total done rows =
      let current_batch_size = min batch_size (total - done) in
      let rest = (do
        new ← write_from done current_batch_size rows
        copy_loop fuel batch_size total (done + current_batch_size) new) in
      if ltb done total then rest else ok rows

  -- A batch writes one row at least.
  unfoldable pub copy_all : ℕ → ℕ → Result DrawError (List A)
  unfolding copy_loop
  copy_all batch_size total = copy_loop total batch_size total 0 []

  write_from-add :
      (i a b : ℕ) (rows : List A)
      → write_from i (a + b) rows ≡ write_from i a rows >>= write_from (i + a) b
  unfolding write_from
  write_from-add i zero b rows =
      let none_more : 0 + b ≡ b = omega arith in
      let same : i ≡ i + 0 = omega arith in
      ap (λ n. write_from i n rows) none_more ∙ ap (λ j. write_from j b rows) same
  write_from-add i (suc a) b rows =
      let shifted : suc a + b ≡ suc (a + b) = omega arith in
      ap (λ n. write_from i n rows) shifted
      ∙ bind_cong (row i) _ _ (λ new.
        write_from-add (i + 1) a b (rows ++ new)
        ∙ bind_cong (write_from (i + 1) a (rows ++ new)) _ _
            (λ more. ap (λ j. write_from j b more) (omega arith)))
      ∙ bind_assoc (row i) (λ new. write_from (i + 1) a (rows ++ new)) (write_from (i + suc a) b)

  copy_loop-write_from :
      (fuel batch_size total done : ℕ) (rows : List A)
      → 1 ≤ batch_size
      → done ≤ total
      → total ≤ done + fuel
      → copy_loop fuel batch_size total done rows ≡ write_from done (total - done) rows
  unfolding copy_loop write_from
  copy_loop-write_from zero batch_size total done rows some_row low enough =
      let over : total - done ≡ 0 = omega arith in rw over refl
  copy_loop-write_from (suc fuel) batch_size total done rows some_row low enough =
      elim (Bool-cases (ltb done total)) [
        | inr over ↦ let empty : total - done ≡ 0 = ground arith in rw (over, empty) refl
        | inl more ↦
            let size = min batch_size (total - done) in
            let left : total - done ≡ size + (total - (done + size)) = omega arith in
            let before : done + 1 ≤ total = ground arith in
            rw more (
              bind_cong (write_from done size rows) _ _ (λ new.
                copy_loop-write_from fuel batch_size total (done + size) new some_row (omega arith)
                  (omega arith))
              ∙ sym (write_from-add done size (total - (done + size)) rows)
              ∙ ap (λ n. write_from done n rows) (sym left))
      ]

  -- For any batch size but 0, the batches write what one pass over the indices writes, or raise what
  -- it raises.
  pub copy_all-write_from :
      (batch_size total : ℕ) → 1 ≤ batch_size → copy_all batch_size total ≡ write_from 0 total []
  unfolding copy_all
  copy_all-write_from batch_size total some_row =
      let all : total - 0 ≡ total = omega arith in
      copy_loop-write_from total batch_size total 0 [] some_row (omega arith) (omega arith)
      ∙ ap (λ n. write_from 0 n []) all

  -- What every row keeps, the table keeps.
  module _ {ℓ} (I : ℕ → List A → Type ℓ)
      (step : (i : ℕ) (rows new : List A)
        → row i ≡ ok new
        → I i rows
        → I (i + 1) (rows ++ new)) where
    pub write_from_induction :
        (i n : ℕ) (rows out : List A) → write_from i n rows ≡ ok out → I i rows → I (i + n) out
    unfolding write_from
    write_from_induction i zero rows out h start =
        let same : i ≡ i + 0 = omega arith in
        subst (λ j. I j out) same (subst (I i) (ok_inj h) start)
    write_from_induction i (suc n) rows out h start =
        let (new, drawn, rest) = bind-eq-ok (row i) _ h in
        let shifted : i + 1 + n ≡ i + suc n = omega arith in
        subst (λ j. I j out) shifted
          (write_from_induction (i + 1) n (rows ++ new) out rest (step i rows new drawn start))

    pub copy_all_induction :
        (batch_size total : ℕ) (out : List A)
        → 1 ≤ batch_size
        → copy_all batch_size total ≡ ok out
        → I 0 []
        → I total out
    copy_all_induction batch_size total out some_row h start =
        let none_before : 0 + total ≡ total = omega arith in
        subst (λ n. I n out) none_before
          (write_from_induction 0 total [] out
            (sym (copy_all-write_from batch_size total some_row) ∙ h) start)

  -- The loop goes through if no row raises.
  pub write_from_succeeds :
      (limit : ℕ)
      → ((i : ℕ) → i < limit → (new : List A) × (row i ≡ ok new))
      → (i n : ℕ) (rows : List A) → i + n ≤ limit
      → (out : List A) × (write_from i n rows ≡ ok out)
  unfolding write_from
  write_from_succeeds limit total i zero rows inside = (rows, refl)
  write_from_succeeds limit total i (suc n) rows inside =
      let (new, drawn) = total i (omega arith) in
      let (out, is) = write_from_succeeds limit total (i + 1) n (rows ++ new) (omega arith) in
      (out, ap (λ m. m >>= λ new. write_from (i + 1) n (rows ++ new)) drawn ∙ is)
