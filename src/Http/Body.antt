-- ===== src/Http/Body.antt =====
-- The body that `response_json` of src/agent_runtime/models_clients/_http.py reads.
use agent_runtime_kit.Http.{Bytes, max_response_bytes, read_body}
use agent_runtime_kit.Http.Chunks.{joined_bytes}
use agent_runtime_kit.Errors.{Error, err, ok}
use agent_runtime_kit.Base.{
  Bool-cases, List, [], append-nil, append_assoc, arith, false, if◌then◌else◌, inl, inr, length,
  length-append, ltb, refl, subst, true, ℕ, ◌++◌, ◌+◌, ◌∷◌, ◌≡◌, ◌≤◌,
}

read_body_more :
    (body : Bytes) (cs : List Bytes)
    → length body ≤ max_response_bytes
    → read_body body cs ≡ (
        if ltb max_response_bytes (length body + length (joined_bytes cs))
        then err (Error.provider_failure false)
        else ok (body ++ joined_bytes cs))
unfolding read_body
read_body_more body [] h =
    let e : ltb max_response_bytes (length body + 0) ≡ false = ground arith in
    rw (e, append-nil body) refl
read_body_more body (c ∷ cs) h =
    let l = length-append c (joined_bytes cs) in
    elim (Bool-cases (ltb max_response_bytes (length body + length c))) [
      | inl e ↦
          let f : ltb max_response_bytes (length body + length (c ++ joined_bytes cs)) ≡ true =
            ground arith in
          rw (e, f) refl
      | inr e ↦
          let s : length (body ++ c) ≤ max_response_bytes = ground (arith, length-append body c) in
          let n : length (body ++ c) + length (joined_bytes cs)
              ≡ length body + length (c ++ joined_bytes cs) =
            omega (arith, l, length-append body c) in
          let a = append_assoc body c (joined_bytes cs) in
          rw e (
            subst
              (λ (k : ℕ). read_body (body ++ c) cs ≡ (
                if ltb max_response_bytes k
                then err (Error.provider_failure false)
                else ok (body ++ (c ++ joined_bytes cs))))
              n
              (subst
                (λ (bs : Bytes). read_body (body ++ c) cs ≡ (
                  if ltb max_response_bytes (length (body ++ c) + length (joined_bytes cs))
                  then err (Error.provider_failure false)
                  else ok bs))
                a (read_body_more (body ++ c) cs s)))
    ]

-- The body of a response is read as all of its bytes if they are no more than the limit, and
-- raises a provider failure that is not retryable if they are more, however they are cut into
-- chunks.
pub read_body_bound :
    (cs : List Bytes)
    → read_body [] cs ≡ (
        if ltb max_response_bytes (length (joined_bytes cs))
        then err (Error.provider_failure false)
        else ok (joined_bytes cs))
read_body_bound cs =
    let z : 0 + length (joined_bytes cs) ≡ length (joined_bytes cs) = omega arith in
    subst
      (λ (k : ℕ). read_body [] cs ≡ (
        if ltb max_response_bytes k
        then err (Error.provider_failure false)
        else ok (joined_bytes cs)))
      z (read_body_more [] cs (omega arith))
