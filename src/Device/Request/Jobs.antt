-- ===== src/Device/Request/Jobs.antt =====
-- An entry of the array `jobs` of a document, and the job that a device reads from its packets.
use agro_daemon.Base.{
  ℕ, zero, suc, ◌+◌, ◌*◌, ◌/◌, ◌%◌, ◌^◌, ◌≤◌, ◌≡◌, refl, ◌≢◌, some, List, [], ◌∷◌, ◌++◌, nat_eq,
  ℕ_discrete, length, length-append, All, arith, Option-cases, inl, inr, ◌∙◌, ap, sym,
}
use agro_daemon.Message.Json.{Json}
use agro_daemon.Device.AppList.{read_bytes}
use agro_daemon.Device.Packets.{Job, c_string, skip, read_jobs, packet_size}
use agro_daemon.Device.Request.{Surroundings}
use agro_daemon.Device.Request.Payload.{int32_bytes, cut_at, JobEntry, entry_bytes}

-- The first entries of a list.
pub take : ℕ → List ℕ → List ℕ
take zero xs = []
take (suc n) [] = []
take (suc n) (x ∷ xs) = x ∷ take n xs

read_bytes-length : (n : ℕ) (bytes xs : List ℕ) → read_bytes n bytes ≡ some xs → length xs ≡ n
unfolding read_bytes
read_bytes-length zero bytes xs h = ground arith
read_bytes-length (suc n) [] xs h = absurd (ground arith)
read_bytes-length (suc n) (c ∷ bytes) xs h = elim (Option-cases (read_bytes n bytes)) [
  | inl none_ ↦ absurd (ground arith)
  | inr (ys, some_) ↦
      let whole : c ∷ ys ≡ xs = ground arith in
      ap length (sym whole) ∙ ap suc (read_bytes-length n bytes ys some_)
]

read_bytes-some :
    (n : ℕ) (bytes : List ℕ) → n ≤ length bytes → (xs : List ℕ) × (read_bytes n bytes ≡ some xs)
unfolding read_bytes
read_bytes-some zero bytes h = ([], refl)
read_bytes-some (suc n) [] h = absurd (omega (arith, h))
read_bytes-some (suc n) (c ∷ bytes) h =
    let (xs, e) = read_bytes-some n bytes (omega (arith, h)) in (c ∷ xs, rw e refl)

cut_first : (xs rest : List ℕ) → length xs ≡ 1 → c_string 1 (cut_at 0 xs ++ rest) ≡ some []
unfolding c_string ℕ_discrete
cut_first [] rest h = absurd (omega (arith, h))
cut_first (x ∷ xs) rest h = refl

-- A name behind which there is a zero, cut down to `n` bytes.
c_string-cut_at :
    (n : ℕ) (name behind xs rest : List ℕ)
    → All (λ c. c ≢ 0) name
    → read_bytes (suc n) (name ++ (0 ∷ behind)) ≡ some xs
    → c_string (suc n) (cut_at n xs ++ rest) ≡ some (take n name)
unfolding c_string read_bytes take
c_string-cut_at zero name behind xs rest h e = cut_first xs rest (read_bytes-length 1 _ xs e)
c_string-cut_at (suc n) [] behind xs rest h e = elim (Option-cases (read_bytes (suc n) behind)) [
  | inl none_ ↦ absurd (ground arith)
  | inr (ys, some_) ↦ let whole : 0 ∷ ys ≡ xs = ground arith in rw (sym whole) (ground arith)
]
c_string-cut_at (suc n) (c ∷ name) behind xs rest h e =
    elim (Option-cases (read_bytes (suc n) (name ++ (0 ∷ behind)))) [
      | inl none_ ↦ absurd (ground arith)
      | inr (ys, some_) ↦
          let whole : c ∷ ys ≡ xs = ground arith in
          rw (sym whole) (
            let tail = c_string-cut_at n name behind ys rest h.1 some_ in ground (arith, tail, h.0))
    ]

skip-append : (n : ℕ) (xs rest : List ℕ) → length xs ≡ n → skip n (xs ++ rest) ≡ rest
unfolding skip
skip-append zero [] rest h = refl
skip-append zero (x ∷ xs) rest h = absurd (omega (arith, h))
skip-append (suc n) [] rest h = absurd (omega (arith, h))
skip-append (suc n) (x ∷ xs) rest h = skip-append n xs rest (omega (arith, h))

length-cut_at : (n : ℕ) (xs : List ℕ) → length (cut_at n xs) ≡ length xs
length-cut_at n [] = refl
length-cut_at zero (x ∷ xs) = refl
length-cut_at (suc n) (x ∷ xs) = ap suc (length-cut_at n xs)

module _ (S : Surroundings) where
  -- The job that an entry stands for: each number cut down to its bytes, the name to eleven.
  pub job_of : JobEntry → Job
  job_of e = record {
    hour_before = e.hour % 2 ^ 8;
    minute_before = e.minute % 2 ^ 8;
    hour_after = e.end_hour % 2 ^ 8;
    minute_after = e.end_minute % 2 ^ 8;
    day_of_week = e.dow % 2 ^ 8;
    priority = e.priority % 2 ^ 8;
    app_name = take 11 (S.chars e.exec);
    argument = e.arg % 2 ^ 32;
  }

  pub read_jobs-entry_bytes :
      (J : Json) (e : JobEntry) (bytes rest : List ℕ) (n : ℕ) (js : List Job)
      → All (λ c. c ≢ 0) (S.chars e.exec)
      → entry_bytes J S e ≡ some bytes
      → read_jobs n rest ≡ some js
      → read_jobs (suc n) (bytes ++ rest) ≡ some (job_of e ∷ js)
  unfolding read_jobs entry_bytes job_of
  read_jobs-entry_bytes J e bytes rest n js nonzero h tail =
      elim (Option-cases (read_bytes 12 (S.chars e.exec ++ (0 ∷ S.behind)))) [
        | inl none_ ↦ absurd (ground arith)
        | inr (exec, some_) ↦
            let name = c_string-cut_at 11 (S.chars e.exec) S.behind exec rest nonzero some_ in
            let behind_ =
              skip-append 12 (cut_at 11 exec) rest
                (length-cut_at 11 exec ∙ read_bytes-length 12 _ exec some_) in
            let argument : e.arg % 2 ^ 8
                  + 2 ^ 8 * (e.arg / 2 ^ 8 % 2 ^ 8)
                  + 2 ^ 16 * (e.arg / 2 ^ 16 % 2 ^ 8)
                  + 2 ^ 24 * (e.arg / 2 ^ 24 % 2 ^ 8)
                ≡ e.arg % 2 ^ 32 =
              omega arith in
            let whole : (e.hour % 2 ^ 8
                  ∷ e.minute % 2 ^ 8
                  ∷ e.end_hour % 2 ^ 8
                  ∷ e.end_minute % 2 ^ 8
                  ∷ e.dow % 2 ^ 8
                  ∷ e.priority % 2 ^ 8
                  ∷ (int32_bytes e.arg ++ cut_at 11 exec))
                ≡ bytes =
              ground (arith, some_, h) in
            rw (sym whole) (ground (arith, name, behind_, tail, argument))
      ]

  pub entry_bytes-some :
      (J : Json) (e : JobEntry)
      → 11 ≤ length S.behind
      → (bytes : List ℕ) × (entry_bytes J S e ≡ some bytes) × (length bytes ≡ packet_size)
  unfolding entry_bytes
  entry_bytes-some J e h =
      let (exec, e₁) =
        read_bytes-some 12 (S.chars e.exec ++ (0 ∷ S.behind))
          (omega (arith, h, length-append (S.chars e.exec) (0 ∷ S.behind))) in
      let size = length-cut_at 11 exec ∙ read_bytes-length 12 _ exec e₁ in
      (
        e.hour % 2 ^ 8
            ∷ e.minute % 2 ^ 8
            ∷ e.end_hour % 2 ^ 8
            ∷ e.end_minute % 2 ^ 8
            ∷ e.dow % 2 ^ 8
            ∷ e.priority % 2 ^ 8
            ∷ (int32_bytes e.arg ++ cut_at 11 exec),
        rw (e₁, entry_bytes) refl,
        omega (arith, size),
      )
