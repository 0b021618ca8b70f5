-- ===== src/Kstat/Reader/Within.antt =====
-- Where the reads of the kstat reader leave the cursor.
use prometheus_zfs_exporter.Base.{
  ℕ, suc, ◌+◌, ◌<◌, ◌≤◌, ◌≡◌, ap, arith, some, Option-cases, Bool-cases, inl, inr, [], ◌∷◌, Bytes,
  length, length-drop, drop, ◌==◌, Error, Result, wrap_err, replace_err, Ends, returns, raises,
  Ends-bind, String,
}
use prometheus_zfs_exporter.Kstat.Reader.{
  KstatReader, index_of, run_length, read_until_exclude, read_until_exclude_ignoring_prefix,
  read_row,
}

-- The reader is somewhere in the file, `k` bytes in at least.
pub record Within (bs : Bytes) (k : ℕ) (t : KstatReader) : Type 0 where
  pub same_bytes : t.bytes ≡ bs
  pub at_least : k ≤ t.pos
  pub inside : t.pos ≤ length bs

-- An error, whichever it is.
abbrev pub Any : Error → KstatReader → Type 0
Any e t = Unit

index_of-lt : (b : ℕ) (xs : Bytes) (n : ℕ) → index_of b xs ≡ some n → n < length xs
unfolding index_of
index_of-lt b [] n = λ e. cc
index_of-lt b (x ∷ xs) n = elim (Bool-cases (x == b)) [
  | inl hit ↦ rw hit (λ e. ground arith)
  | inr miss ↦ elim (Option-cases (index_of b xs)) [
    | inl absent ↦ rw (miss, absent) (λ e. cc)
    | inr (m, found) ↦ let bound = index_of-lt b xs m found in rw (miss, found) (λ e. ground arith)
  ]
]

run_length-lt : (b : ℕ) (xs : Bytes) (n : ℕ) → run_length b xs ≡ some n → n < length xs
unfolding run_length
run_length-lt b [] n = λ e. cc
run_length-lt b (x ∷ xs) n = elim (Bool-cases (x == b)) [
  | inr hit ↦ rw hit (λ e. ground arith)
  | inl miss ↦ elim (Option-cases (run_length b xs)) [
    | inl absent ↦ rw (miss, absent) (λ e. cc)
    | inr (m, found) ↦
        let bound = run_length-lt b xs m found in rw (miss, found) (λ e. ground arith)
  ]
]

pub read_until_exclude-Within :
    (bs : Bytes) (b k : ℕ) (t : KstatReader)
    → Within bs k t
    → Ends (λ _ u. Within bs (suc k) u) Any (read_until_exclude b t)
unfolding read_until_exclude
read_until_exclude-Within bs b k t h = elim (Option-cases (index_of b (drop t.pos t.bytes))) [
  | inl absent ↦ rw (read_until_exclude, absent) (raises tt)
  | inr (n, found) ↦
      rw (read_until_exclude, found)
        (returns (record {
          same_bytes = h.same_bytes;
          at_least = omega (arith, h.at_least);
          inside = omega (
            arith,
            index_of-lt b (drop t.pos t.bytes) n found,
            length-drop t.pos t.bytes,
            ap length h.same_bytes,
          );
        }))
]

pub read_token-Within :
    (bs : Bytes) (b p k : ℕ) (t : KstatReader)
    → Within bs k t
    → Ends (λ _ u. Within bs (suc k) u) Any (read_until_exclude_ignoring_prefix b p t)
unfolding read_until_exclude_ignoring_prefix
read_token-Within bs b p k t h = elim (Option-cases (run_length p (drop t.pos t.bytes))) [
  | inl absent ↦ rw (read_until_exclude_ignoring_prefix, absent) (raises tt)
  | inr (n, found) ↦
      rw (read_until_exclude_ignoring_prefix, found)
        (read_until_exclude-Within bs b k (record t { pos = t.pos + n })
          (record {
            same_bytes = h.same_bytes;
            at_least = omega (arith, h.at_least);
            inside = omega (
              arith,
              run_length-lt p (drop t.pos t.bytes) n found,
              length-drop t.pos t.bytes,
              ap length h.same_bytes,
            );
          }))
]

module _ {A : Type 0} {P : A → KstatReader → Type 0} where
  pub Ends-wrap_err :
      (text : String) {x : Result A × KstatReader} → Ends P Any x → Ends P Any (wrap_err text x)
  unfolding wrap_err
  Ends-wrap_err text (returns p) = returns p
  Ends-wrap_err text (raises q) = raises tt

  pub Ends-replace_err :
      (text : String) {x : Result A × KstatReader} → Ends P Any x → Ends P Any (replace_err text x)
  unfolding replace_err
  Ends-replace_err text (returns p) = returns p
  Ends-replace_err text (raises q) = raises tt

pub read_row-Within :
    (bs : Bytes) (k : ℕ) (t : KstatReader)
    → Within bs k t
    → Ends (λ _ u. Within bs (suc k) u) Any (read_row t)
unfolding read_row
read_row-Within bs k t h =
    Ends-bind (Ends-replace_err _ (read_token-Within bs b' ' b' ' k t h))
      (λ name t1 h1.
        Ends-bind
          (Ends-replace_err _ (
            read_token-Within bs b' ' b' ' (suc k) (record t1 { row_name = name })
              (record { same_bytes = h1.same_bytes; at_least = h1.at_least; inside = h1.inside })))
          (λ kind t2 h2.
            Ends-bind
              (Ends-replace_err _ (
                read_token-Within bs b'\n' b' ' (suc (suc k)) (record t2 { row_type = kind })
                  (record {
                    same_bytes = h2.same_bytes;
                    at_least = h2.at_least;
                    inside = h2.inside;
                  })))
              (λ value t3 h3. returns (record {
                same_bytes = h3.same_bytes;
                at_least = omega (arith, h3.at_least);
                inside = h3.inside;
              }))
              (λ e u q. tt))
          (λ e u q. tt))
      (λ e u q. tt)
