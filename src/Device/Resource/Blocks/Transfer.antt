-- ===== src/Device/Resource/Blocks/Transfer.antt =====
-- A client that asks for the blocks of a file one behind the other.
use agro_daemon.Base.{
  ℕ, zero, suc, ◌+◌, ◌*◌, ◌-◌, ◌%◌, ◌^◌, ◌≤◌, ◌<◌, ◌≡◌, refl, sym, ap, ◌∙◌, subst, Bool, true,
  false, List, [], ◌∷◌, ◌++◌, Option, none, some, if◌then◌else◌, length, ltb, arith, Bool-cases,
  inl, inr,
}
use agro_daemon.Device.Resource.Blocks.{
  default_block_size, take, drop, Folder, BlockOption, Block, file_not_found, out_of_bound, content,
  send_block, get_file_handler,
}

take-drop : (n : ℕ) (bytes : List ℕ) → take n bytes ++ drop n bytes ≡ bytes
unfolding take drop
take-drop zero bytes = refl
take-drop (suc n) [] = refl
take-drop (suc n) (c ∷ bytes) = ap (λ b. c ∷ b) (take-drop n bytes)

take-length : (bytes : List ℕ) → take (length bytes) bytes ≡ bytes
unfolding take
take-length [] = refl
take-length (c ∷ bytes) = ap (λ b. c ∷ b) (take-length bytes)

length-drop : (n : ℕ) (bytes : List ℕ) → length (drop n bytes) ≡ length bytes - n
unfolding drop
length-drop zero bytes = omega arith
length-drop (suc n) [] = omega arith
length-drop (suc n) (c ∷ bytes) = omega (arith, length-drop n bytes)

drop_nil : (n : ℕ) → drop n [] ≡ []
unfolding drop
drop_nil zero = refl
drop_nil (suc n) = refl

drop-drop : (m n : ℕ) (bytes : List ℕ) → drop m (drop n bytes) ≡ drop (n + m) bytes
unfolding drop
drop-drop m zero bytes = ap (λ k. drop k bytes) (omega arith)
drop-drop m (suc n) [] = drop_nil m ∙ sym (drop_nil (suc n + m))
drop-drop m (suc n) (c ∷ bytes) =
    let next : suc n + m ≡ suc (n + m) = omega arith in
    drop-drop m n bytes ∙ ap (λ k. drop k (c ∷ bytes)) (sym next)

module _ (engine : BlockOption) (folder : Folder) (name : List ℕ) where
  -- The client puts the blocks from the `n`th on together, and stops behind the one that has no more
  -- behind it. It sends `ask n` for the `n`th, and the first number of requests at most.
  pub fetch : (ℕ → ℕ) → ℕ → ℕ → Option (List ℕ)
  fetch ask zero n = none
  fetch ask (suc k) n =
      let rest = fetch ask k (suc n) in
      elim (get_file_handler engine folder name (some (ask n))) [
        | file_not_found ↦ none
        | out_of_bound ↦ none
        | content size block payload ↦
            if block.more
            then elim rest [ none ↦ none | some behind ↦ some (payload ++ behind) ]
            else some payload
      ]

  module _ (bytes : List ℕ) (found : folder.file name ≡ some bytes)
      (opened : folder.opens name ≡ true) (fits : length bytes < 2 ^ 32) where
    size_kept : length bytes % 2 ^ 32 ≡ length bytes
    size_kept = omega (arith, fits)

    module _ (value s o : ℕ) (block : engine.block_size value ≡ s)
        (offset : engine.byte_offset value ≡ o) (inside : o ≤ length bytes) where
      block_of : Bool → Block
      block_of more = record { number = engine.block_number value; more = more; size = s }

      last_block :
          length bytes - o < s
          → get_file_handler engine folder name (some value)
            ≡ content (length bytes) (block_of false) (drop o bytes)
      unfolding get_file_handler send_block block_of
      last_block short =
          let within : ltb (length bytes) o ≡ false = ground (arith, inside) in
          let last : ltb (length bytes - o) s ≡ true = ground (arith, short) in
          let all : ltb s (length bytes - o) ≡ false = ground (arith, short) in
          let whole : take (length bytes - o) (drop o bytes) ≡ drop o bytes =
            subst (λ k. take k (drop o bytes) ≡ drop o bytes) (length-drop o bytes)
              (take-length (drop o bytes)) in
          rw
            (
              get_file_handler, found, size_kept, offset, block, within, last, send_block, all,
              opened, whole,
            )
            refl

      middle_block :
          s ≤ length bytes - o
          → get_file_handler engine folder name (some value)
            ≡ content (length bytes) (block_of true) (take s (drop o bytes))
      unfolding get_file_handler send_block block_of
      middle_block long = elim (Bool-cases (ltb s (length bytes - o))) [
        | inl longer ↦
            rw
              (
                get_file_handler, found, size_kept, offset, block, within, more_left, send_block,
                longer, opened,
              )
              refl
        | inr equal ↦
            let same : length bytes - o ≡ s = ground (arith, equal, long) in
            rw
              (
                get_file_handler, found, size_kept, offset, block, within, more_left, send_block,
                equal, opened, same,
              )
              refl
      ]
        where
          within : ltb (length bytes) o ≡ false
          within = ground (arith, inside)

          more_left : ltb (length bytes - o) s ≡ false
          more_left = ground (arith, long)

    module _ (s : ℕ) (ask : ℕ → ℕ)
        (asks : (n : ℕ)
          → n * s ≤ length bytes
          → (engine.block_size (ask n) ≡ s) × (engine.byte_offset (ask n) ≡ n * s)) where
      -- From the `n`th block on the client gets what stands behind its offset.
      fetch-drop :
          (k n : ℕ)
          → n * s ≤ length bytes
          → length bytes < n * s + k * s
          → fetch ask k n ≡ some (drop (n * s) bytes)
      unfolding fetch block_of
      fetch-drop zero n inside enough = absurd (omega (arith, inside, enough))
      fetch-drop (suc k) n inside enough =
          let (size, offset) = asks n inside in
          let left = length bytes - n * s in
          elim (Bool-cases (ltb left s)) [
            | inl short ↦
                let h : left < s = ground (arith, short) in
                rw (fetch, last_block (ask n) s (n * s) size offset inside h) refl
            | inr long ↦
                let h : s ≤ left = ground (arith, long) in
                let next : suc n * s ≡ n * s + s = omega arith in
                let behind : fetch ask k (suc n) ≡ some (drop (suc n * s) bytes) =
                  fetch-drop k (suc n) (omega (arith, h, inside, next))
                    (omega (arith, enough, next)) in
                rw (fetch, middle_block (ask n) s (n * s) size offset inside h, behind)
                  (ap some (
                    subst (λ m. take s (drop (n * s) bytes) ++ drop m bytes ≡ drop (n * s) bytes)
                      (sym next)
                      (subst (λ b. take s (drop (n * s) bytes) ++ b ≡ drop (n * s) bytes)
                        (drop-drop s (n * s) bytes) (take-drop s (drop (n * s) bytes)))))
          ]

      -- A client that asks for the blocks of a file of less than 2 ^ 32 bytes in their order, from the
      -- first on and with one size of block for all of them, has the bytes of the file at the end,
      -- when it may send one request more than there are whole blocks in the file.
      pub fetch-file : (k : ℕ) → length bytes < k * s → fetch ask k 0 ≡ some bytes
      unfolding drop
      fetch-file k enough =
          let start : 0 * s ≡ 0 = omega arith in
          fetch-drop k 0 (omega (arith, start)) (omega (arith, start, enough))
          ∙ ap (λ m. some (drop m bytes)) start

    -- Without an option `block2`, a file shorter than a block of the default size is sent whole, but
    -- with the mark that more of it is left; a request with the offset of the next block is refused.
    pub get_file_handler-short :
        (value : ℕ)
        → length bytes < default_block_size
        → engine.byte_offset value ≡ default_block_size
        → (get_file_handler engine folder name none
            ≡ content
                (length bytes)
                (record { number = 0; more = true; size = default_block_size })
                bytes)
          × (get_file_handler engine folder name (some value) ≡ out_of_bound)
    unfolding get_file_handler send_block drop
    get_file_handler-short value short next =
        let whole : ltb 512 (length bytes) ≡ false = ground (arith, short) in
        let beyond : ltb (length bytes) 512 ≡ true = ground (arith, short) in
        (
          rw (get_file_handler, found, size_kept, send_block, whole, opened, take-length bytes)
              refl,
          rw (get_file_handler, found, size_kept, next, beyond) refl,
        )
