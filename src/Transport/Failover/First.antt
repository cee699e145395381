-- ===== src/Transport/Failover/First.antt =====
-- What a failover promises, apart from how it is computed: the first nameserver that answers.
use dog.Prelude.{◌≡◌, ◌↔◌, ◌⊎◌, inl, inr, refl, sym, ap, ◌∙◌, List, [], ◌∷◌, ◌++◌, append-nil}
use dog.Dns.Message.{Request, Response}
use dog.Transport.Errors.{Error, no_nameservers, Result, ok, err, panic, out_of_fuel}
use dog.Transport.Failover.{Transport, or_else, try_all, failover_send}

module _ {ℓ} {World : Type ℓ} (request : Request) where
  -- Asked in order, each of these nameservers gives an error; `last` is the last one, or `e` if there
  -- are none.
  abbrev pub AllFail : List (Transport World) → World → Error → World → Error → Type ℓ
  AllFail [] w e w' last = (w ≡ w') × (e ≡ last)
  AllFail (transport ∷ rest) w e w' last =
      (e₁ : Error) × (w₁ : World) × (transport request w ≡ (err e₁, w₁))
      × AllFail rest w₁ e₁ w' last

  -- One of them answers, after those before it gave errors; the others are not asked.
  abbrev pub FirstAnswer : List (Transport World) → World → Error → Response → World → Type ℓ
  FirstAnswer transports w e response w' =
      (before after : List (Transport World)) × (transport : Transport World) × (w₁ : World)
      × (e₁ : Error) × (transports ≡ before ++ transport ∷ after)
      × AllFail before w e w₁ e₁
      × (transport request w₁ ≡ (ok response, w'))

  abbrev Split : Result Response × World → Type ℓ
  Split r =
      ((x : Response) × (w : World) × (r ≡ (ok x, w)))
      ⊎ (((e : Error) × (w : World) × (r ≡ (err e, w)))
          ⊎ (((w : World) × (r ≡ (panic, w))) ⊎ ((w : World) × (r ≡ (out_of_fuel, w)))))

  split : (r : Result Response × World) → Split r
  split (ok x, w) = inl (x, w, refl)
  split (err e, w) = inr (inl (e, w, refl))
  split (panic, w) = inr (inr (inl (w, refl)))
  split (out_of_fuel, w) = inr (inr (inr (w, refl)))

  module _ (transport : Transport World) (rest : List (Transport World)) (w : World)
      (e : Error) where
    step :
        {r : Result Response × World}
        → transport request w ≡ r
        → try_all e (transport ∷ rest) request w ≡ or_else r (λ e' w'. try_all e' rest request w')
    unfolding try_all
    step h = ap (λ r. or_else r (λ e' w'. try_all e' rest request w')) h

  answer_sound :
      (transports : List (Transport World)) (w : World) (e : Error) (x : Response) (w' : World)
      → try_all e transports request w ≡ (ok x, w')
      → FirstAnswer transports w e x w'
  unfolding try_all
  answer_sound [] w e x w' h = cc
  answer_sound (transport ∷ rest) w e x w' h = elim (split (transport request w)) [
    | inl (y, w₁, a) ↦
        ([], rest, transport, w, e, refl, (refl, refl), a ∙ sym (step transport rest w e a) ∙ h)
    | inr (inl (e₁, w₁, a)) ↦
        let (before, after, t, w₂, e₂, shape, fail, answer) =
          answer_sound rest w₁ e₁ x w' (sym (step transport rest w e a) ∙ h) in
        (
          transport ∷ before,
          after,
          t,
          w₂,
          e₂,
          ap (λ ts. transport ∷ ts) shape,
          (e₁, w₁, a, fail),
          answer,
        )
    | inr (inr (inl (w₁, a))) ↦ cc (sym (step transport rest w e a) ∙ h)
    | inr (inr (inr (w₁, a))) ↦ cc (sym (step transport rest w e a) ∙ h)
  ]

  error_sound :
      (transports : List (Transport World)) (w : World) (e last : Error) (w' : World)
      → try_all e transports request w ≡ (err last, w')
      → AllFail transports w e w' last
  unfolding try_all
  error_sound [] w e last w' h = (cc h, cc h)
  error_sound (transport ∷ rest) w e last w' h = elim (split (transport request w)) [
    | inl (y, w₁, a) ↦ cc (sym (step transport rest w e a) ∙ h)
    | inr (inl (e₁, w₁, a)) ↦
        (e₁, w₁, a, error_sound rest w₁ e₁ last w' (sym (step transport rest w e a) ∙ h))
    | inr (inr (inl (w₁, a))) ↦ cc (sym (step transport rest w e a) ∙ h)
    | inr (inr (inr (w₁, a))) ↦ cc (sym (step transport rest w e a) ∙ h)
  ]

  -- Behind nameservers that fail, the loop goes on where they left it.
  go_on :
      (before rest : List (Transport World)) (w : World) (e : Error) (w₁ : World) (e₁ : Error)
      → AllFail before w e w₁ e₁
      → try_all e (before ++ rest) request w ≡ try_all e₁ rest request w₁
  go_on [] rest w e w₁ e₁ (same, last) = cc
  go_on (transport ∷ before) rest w e w₁ e₁ (e₂, w₂, a, fail) =
      step transport (before ++ rest) w e a ∙ go_on before rest w₂ e₂ w₁ e₁ fail

  -- Sending to several nameservers returns a response exactly when one of them gives it and
  -- every one before it failed with an error, each taking over from the state that the one
  -- before it left.
  pub failover_send-FirstAnswer :
      (transports : List (Transport World)) (w : World) (response : Response) (w' : World)
      → (failover_send transports request w ≡ (ok response, w'))
        ↔ FirstAnswer transports w no_nameservers response w'
  unfolding failover_send
  failover_send-FirstAnswer transports w response w' = (
    answer_sound transports w no_nameservers response w',
    λ (before, after, transport, w₁, e₁, shape, fail, answer).
        ap (λ ts. try_all no_nameservers ts request w) shape
        ∙ go_on before (transport ∷ after) w no_nameservers w₁ e₁ fail
        ∙ step transport after w₁ e₁ answer,
  )

  -- Sending to several nameservers returns an error exactly when all of them fail, each taking
  -- over from the state that the one before it left, and the error is that of the last one, or
  -- that there are no nameservers.
  pub failover_send-AllFail :
      (transports : List (Transport World)) (w : World) (last : Error) (w' : World)
      → (failover_send transports request w ≡ (err last, w'))
        ↔ AllFail transports w no_nameservers w' last
  unfolding failover_send try_all
  failover_send-AllFail transports w last w' = (
    error_sound transports w no_nameservers last w',
    λ fail.
        ap (λ ts. try_all no_nameservers ts request w) (sym (append-nil transports))
        ∙ go_on transports [] w no_nameservers w' last fail,
  )
