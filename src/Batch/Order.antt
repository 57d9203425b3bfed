-- ===== src/Batch/Order.antt =====
-- internal/batch/batch.go: what the handler of a batch answers, against the sub-requests one by one.
use riposo.Prelude.{
  ℕ, ◌≡◌, refl, ◌⊎◌, inl, inr, ◌+◌, true, false, Bool-cases, Option, List, [], ◌∷◌, Text, Dict,
  Result, ok, err, Result-cases,
}
use riposo.Batch.{
  Request, RequestPart, Refusal, recursion, invalid_part, contains_recursive, norm, http_request,
  collected, collect, serve_each, serve_collected, handler,
}

module _ (canonical : Text → Text) (new_request : Text → Text → Option Text) where
  -- Each part gives the sub-request at its place.
  abbrev Made : Text → Option RequestPart → Dict Text → List RequestPart → List RequestPart → Type 0
  Made namespace defaults parent [] [] = Unit
  Made namespace defaults parent [] (sreq ∷ sub) = ⊥
  Made namespace defaults parent (part ∷ requests) [] = ⊥
  Made namespace defaults parent (part ∷ requests) (sreq ∷ sub) =
      (http_request canonical new_request parent (norm namespace defaults part) ≡ ok sreq)
      × Made namespace defaults parent requests sub

  -- Counted from pos, the part at the position n is the first that gives no sub-request, with the error x.
  abbrev RefusedAt :
      Text → Option RequestPart → Dict Text → ℕ → List RequestPart → ℕ → Text → Type 0
  RefusedAt namespace defaults parent pos [] n x = ⊥
  RefusedAt namespace defaults parent pos (part ∷ requests) n x =
      ((n ≡ pos)
        × (http_request canonical new_request parent (norm namespace defaults part) ≡ err x))
      ⊎ ((sreq : RequestPart) × (http_request canonical new_request parent
              (norm namespace defaults part)
            ≡ ok sreq)
          × RefusedAt namespace defaults parent (pos + 1) requests n x)

  abbrev Collected :
      Text
      → Option RequestPart
      → Dict Text
      → ℕ
      → List RequestPart
      → Result Refusal (List RequestPart)
      → Type 0
  Collected namespace defaults parent pos requests (ok sub) =
      Made namespace defaults parent requests sub
  Collected namespace defaults parent pos requests (err recursion) = ⊥
  Collected namespace defaults parent pos requests (err (invalid_part n x)) =
      RefusedAt namespace defaults parent pos requests n x

  extend :
      (namespace : Text) (defaults : Option RequestPart) (parent : Dict Text) (pos : ℕ)
      (part : RequestPart) (requests : List RequestPart) (sreq : RequestPart)
      (r : Result Refusal (List RequestPart))
      → http_request canonical new_request parent (norm namespace defaults part) ≡ ok sreq
      → Collected namespace defaults parent (pos + 1) requests r
      → Collected namespace defaults parent pos (part ∷ requests) (collected pos (ok sreq) r)
  unfolding collected
  extend namespace defaults parent pos part requests sreq (ok sub) e h = (e, h)
  extend namespace defaults parent pos part requests sreq (err recursion) e h = h
  extend namespace defaults parent pos part requests sreq (err (invalid_part n x)) e h =
      inr (sreq, e, h)

  collect-Collected :
      (namespace : Text) (defaults : Option RequestPart) (parent : Dict Text) (pos : ℕ)
      (requests : List RequestPart)
      → Collected namespace defaults parent pos requests
          (collect canonical new_request namespace defaults parent pos requests)
  unfolding collect collected
  collect-Collected namespace defaults parent pos [] = tt
  collect-Collected namespace defaults parent pos (part ∷ requests) =
      let rest = collect-Collected namespace defaults parent (pos + 1) requests in
      elim (Result-cases
        (http_request canonical new_request parent (norm namespace defaults part))) [
          | inl (sreq, e) ↦ rw e (
              extend namespace defaults parent pos part requests sreq
                (collect canonical new_request namespace defaults parent (pos + 1) requests) e rest)
          | inr (x, e) ↦ rw e (inl (refl, e))
        ]

module _ {S R : Type 0} (serve : RequestPart → S → R × S) where
  -- Each sub-request has the response at its place, and is served in the state that those before it left.
  abbrev Served : List RequestPart → S → List R → S → Type 0
  Served [] s [] s' = s' ≡ s
  Served [] s (res ∷ responses) s' = ⊥
  Served (sr ∷ sub) s [] s' = ⊥
  Served (sr ∷ sub) s (res ∷ responses) s' =
      (next : S) × (serve sr s ≡ (res, next)) × Served sub next responses s'

  serve_each-Served :
      (sub : List RequestPart) (s : S)
      → Served sub s (serve_each serve sub s).0 (serve_each serve sub s).1
  unfolding serve_each
  serve_each-Served [] s = refl
  serve_each-Served (sr ∷ sub) s = ((serve sr s).1, refl, serve_each-Served sub (serve sr s).1)

module _ {S R : Type 0} (canonical : Text → Text) (new_request : Text → Text → Option Text)
    (serve : RequestPart → S → R × S) where
  -- The answer to a batch in the state s, and the state that it leaves.
  abbrev pub Answers : Text → Request → Dict Text → S → Result Refusal (List R) × S → Type 0
  Answers namespace req parent s (err recursion, s') = (contains_recursive req ≡ true) × (s' ≡ s)
  Answers namespace req parent s (err (invalid_part n x), s') =
      (contains_recursive req ≡ false)
      × RefusedAt canonical new_request namespace req.defaults parent 0 req.requests n x
      × (s' ≡ s)
  Answers namespace req parent s (ok responses, s') =
      (contains_recursive req ≡ false)
      × ((sub : List RequestPart) × Made canonical new_request namespace req.defaults parent
            req.requests sub
          × Served serve sub s responses s')

  serve_collected-Answers :
      (namespace : Text) (req : Request) (parent : Dict Text) (s : S)
      (r : Result Refusal (List RequestPart))
      → contains_recursive req ≡ false
      → Collected canonical new_request namespace req.defaults parent 0 req.requests r
      → Answers namespace req parent s (serve_collected serve r s)
  unfolding serve_collected
  serve_collected-Answers namespace req parent s (ok sub) e h =
      (e, (sub, h, serve_each-Served serve sub s))
  serve_collected-Answers namespace req parent s (err recursion) e h = absurd h
  serve_collected-Answers namespace req parent s (err (invalid_part n x)) e h = (e, h, refl)

  -- A batch is refused as a whole, with no sub-request served, where the defaults or a part lead to /batch as
  -- they are written, and otherwise at its first part that gives no sub-request. In all other cases each part
  -- is answered in its place, and is served in the state that the parts before it left.
  pub handler-Answers :
      (namespace : Text) (req : Request) (parent : Dict Text) (s : S)
      → Answers namespace req parent s (handler canonical new_request serve namespace req parent s)
  unfolding handler
  handler-Answers namespace req parent s = elim (Bool-cases (contains_recursive req)) [
    | inl e ↦ rw e (e, refl)
    | inr e ↦ rw e (
        serve_collected-Answers namespace req parent s
          (collect canonical new_request namespace req.defaults parent 0 req.requests) e
          (collect-Collected canonical new_request namespace req.defaults parent 0 req.requests))
  ]
