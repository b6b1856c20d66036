-- ===== src/Connections/Accounts.antt =====
-- Every client that was made is closed once, but for the one that is held.
use lite_router.Prelude.{
  ℕ, zero, suc, ◌≡◌, refl, sym, ap, ◌∙◌, Bool, false, not, ◌&&◌, Option, none, some, List, [], ◌∷◌,
  ◌⊎◌, inl, inr, arith,
}
use lite_router.Connections.{
  Holder, client_of, begin_of, end_of, get_client, begin_close, end_close, Act, gets, begins, ends,
  act, acts, no_client,
}

-- the numbers below `n`, the largest first
abbrev pub down_from : ℕ → List ℕ
down_from zero = []
down_from (suc n) = n ∷ down_from n

-- the client `n` is the next one to be closed, or its `aclose` has been called once and is awaited
abbrev pub Stage : ℕ → List ℕ → ℕ → Type 0
Stage n closed awaited =
    ((awaited ≡ 0) × (closed ≡ down_from n)) ⊎ ((awaited ≡ 1) × (closed ≡ down_from (suc n)))

module _ {A : Type 0} where
  -- The clients made are numbered without a gap, and have been closed once each, in their order, but
  -- for the one that is held, which is the last.
  abbrev pub Accounted : Option (ℕ × A) → ℕ → List ℕ → ℕ → Type 0
  Accounted none made closed awaited = (closed ≡ down_from made) × (awaited ≡ 0)
  Accounted (some (n, a)) made closed awaited = (made ≡ suc n) × Stage n closed awaited

  abbrev pub IsAccounted : Holder A → Type 0
  IsAccounted h = Accounted h.client h.made h.closed h.awaited

  -- `aclose` is not called while one is awaited, and an exception of a client's own is caught, or
  -- there is none
  abbrev pub Orderly : Bool → Holder A → Act A → Type 0
  Orderly caught h (gets args) = Unit
  Orderly caught h begins = h.awaited ≡ 0
  Orderly caught h (ends raised) = raised && not caught ≡ false

  abbrev pub AllOrderly : Bool → List (Act A) → Holder A → Type 0
  AllOrderly caught [] h = Unit
  AllOrderly caught (a ∷ calls) h = Orderly caught h a × AllOrderly caught calls (act caught h a)

  get_client-IsAccounted :
      (args : A) (held : Option (ℕ × A)) (h : Holder A)
      → h.client ≡ held
      → Accounted held h.made h.closed h.awaited
      → IsAccounted (client_of args held h).1
  get_client-IsAccounted args none h e (closed, idle) = (refl, inl (idle, closed))
  get_client-IsAccounted args (some given) h e counted = rw e counted

  begin_close-IsAccounted :
      (held : Option (ℕ × A)) (h : Holder A)
      → h.client ≡ held
      → h.awaited ≡ 0
      → Accounted held h.made h.closed h.awaited
      → IsAccounted (begin_of held h)
  begin_close-IsAccounted none h e idle counted = rw e counted
  begin_close-IsAccounted (some (n, a)) h e idle (made, inl (z, closed)) =
      rw e (made, inr (ap suc z, ap (◌∷◌ n) closed))
  begin_close-IsAccounted (some (n, a)) h e idle (made, inr (one, closed)) =
      absurd (omega (arith, idle, one))

  -- what an awaited `aclose` finds
  awaited-Accounted :
      (held : Option (ℕ × A)) (made k : ℕ) (closed : List ℕ)
      → Accounted held made closed (suc k)
      → (closed ≡ down_from made) × (k ≡ 0)
  awaited-Accounted none made k closed (all_, idle) = absurd (omega (arith, idle))
  awaited-Accounted (some (n, a)) made k closed (last, inl (idle, _)) = absurd (omega (arith, idle))
  awaited-Accounted (some (n, a)) made k closed (last, inr (one, called)) =
      (called ∙ ap down_from (sym last), omega (arith, one))

  end_close-IsAccounted :
      (caught raised : Bool) (awaited : ℕ) (h : Holder A)
      → raised && not caught ≡ false
      → h.awaited ≡ awaited
      → Accounted h.client h.made h.closed awaited
      → IsAccounted (end_of caught raised awaited h)
  end_close-IsAccounted caught raised zero h s e counted = rw e counted
  end_close-IsAccounted caught raised (suc k) h s e counted =
      rw s (awaited-Accounted h.client h.made k h.closed counted)

  act-IsAccounted :
      (caught : Bool) (h : Holder A) (a : Act A)
      → Orderly caught h a
      → IsAccounted h
      → IsAccounted (act caught h a)
  unfolding get_client begin_close end_close
  act-IsAccounted caught h (gets args) s counted =
      get_client-IsAccounted args h.client h refl counted
  act-IsAccounted caught h begins s counted = begin_close-IsAccounted h.client h refl s counted
  act-IsAccounted caught h (ends raised) s counted =
      end_close-IsAccounted caught raised h.awaited h s refl counted

  acts-IsAccounted :
      (caught : Bool) (calls : List (Act A)) (h : Holder A)
      → AllOrderly caught calls h
      → IsAccounted h
      → IsAccounted (acts caught calls h)
  unfolding acts
  acts-IsAccounted caught [] h s counted = counted
  acts-IsAccounted caught (a ∷ calls) h (s, rest) counted =
      acts-IsAccounted caught calls (act caught h a) rest (act-IsAccounted caught h a s counted)

  -- the client that was given is the one that is held
  abbrev pub Fresh : ℕ × A → Holder A → Type 0
  Fresh given h = (h.client ≡ some given) × Stage given.0 h.closed h.awaited

  given-Fresh :
      (args : A) (held : Option (ℕ × A)) (h : Holder A)
      → h.client ≡ held
      → Accounted held h.made h.closed h.awaited
      → Fresh (client_of args held h).0 (client_of args held h).1
  given-Fresh args none h e (closed, idle) = (refl, inl (idle, closed))
  given-Fresh args (some (n, a)) h e (made, stage) = (e, stage)

  -- No client is lost and none is closed twice. From a fresh holder, through any calls of
  -- `_get_client` and of `aclose`, of which no `aclose` is called while another one is awaited, and
  -- whose awaits are survived: the clients that were made have been closed once each, in their order,
  -- but for the last where it is held. And the client that `_get_client` gives next is the one held,
  -- and has not been closed, unless its own `aclose` is awaited at that moment.
  pub acts-Fresh :
      (caught : Bool) (calls : List (Act A)) (args : A)
      → AllOrderly caught calls no_client
      → let h = acts caught calls no_client in
        IsAccounted h × Fresh (get_client args h).0 (get_client args h).1
  unfolding get_client
  acts-Fresh caught calls args s =
      let h = acts caught calls no_client in
      let counted = acts-IsAccounted caught calls no_client s (refl, refl) in
      (counted, given-Fresh args h.client h refl counted)
