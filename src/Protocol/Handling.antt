-- ===== src/Protocol/Handling.antt =====
-- How the handling of one connection goes on, whatever the other connections do.
use compute_user_accounts.Base.{
  ℕ, ◌≡◌, refl, sym, ap, subst, inl, inr, Bool, true, false, List, [], ◌∷◌, none, some, Bytes, take,
  ◌==◌, Bool-cases, if_false, if◌then◌else◌, arith,
}
use compute_user_accounts.Accounts.{AccountProvider}
use compute_user_accounts.Server.Respond.{respond, max_request_size}
use compute_user_accounts.Server.Serve.{
  Connection, absent, reading, requested, writing, closed, written, Serving, Event, accept_failed,
  accepted, read, responded, wrote, respond_one, serve_event, serve_events, serve,
}
use compute_user_accounts.Protocol.Serving.{IsAnswered, serve_answers}

-- The event is one of the connection.
abbrev pub is_of : ℕ → Event → Bool
is_of i accept_failed = false
is_of i (accepted j) = j == i
is_of i (read j incoming) = j == i
is_of i (responded j) = j == i
is_of i (wrote j done) = j == i

abbrev pub of_connection : ℕ → List Event → List Event
of_connection i [] = []
of_connection i (e ∷ es) = let rest = of_connection i es in if is_of i e then e ∷ rest else rest

-- What is to come of a connection whose handling meets no failure.
abbrev pub rest_of : ℕ → Bytes → Connection → List Event
rest_of i incoming absent = accepted i ∷ read i (some incoming) ∷ responded i ∷ wrote i true ∷ []
rest_of i incoming reading = read i (some incoming) ∷ responded i ∷ wrote i true ∷ []
rest_of i incoming (requested request) = responded i ∷ wrote i true ∷ []
rest_of i incoming (writing request response) = wrote i true ∷ []
rest_of i incoming closed = []
rest_of i incoming (written request response) = []

abbrev IsOnTrack : Bytes → Connection → Type 0
IsOnTrack r absent = Unit {0}
IsOnTrack r reading = Unit {0}
IsOnTrack r (requested request) = request ≡ r
IsOnTrack r (writing request response) = request ≡ r
IsOnTrack r closed = ⊥
IsOnTrack r (written request response) = request ≡ r

cons-head : {e f : Event} {es fs : List Event} → (e ∷ es) ≡ (f ∷ fs) → e ≡ f
cons-head t = cc

cons-tail : {e f : Event} {es fs : List Event} → (e ∷ es) ≡ (f ∷ fs) → es ≡ fs
cons-tail t = cc

cons-ne-nil : {e : Event} {es : List Event} → (e ∷ es) ≡ [] → ⊥
cons-ne-nil t = cc

eq_refl : (i : ℕ) → (i == i) ≡ true
eq_refl i = ground arith

module _ {S : Type 0} (p : AccountProvider S) (i first : ℕ) (others : Bytes) where
  abbrev incoming : Bytes
  incoming = first ∷ others

  abbrev request : Bytes
  request = take max_request_size incoming

  respond_one-other :
      (j : ℕ) (x : Connection) (s : Serving S)
      → (j == i) ≡ false
      → (respond_one p j x s).connection i ≡ s.connection i
  unfolding respond_one
  respond_one-other j absent s f = refl
  respond_one-other j reading s f = refl
  respond_one-other j (requested r) s f = if_false _ _ f
  respond_one-other j (writing r response) s f = refl
  respond_one-other j closed s f = refl
  respond_one-other j (written r response) s f = refl

  serve_event-other :
      (e : Event) (s : Serving S)
      → is_of i e ≡ false
      → (serve_event p e s).connection i ≡ s.connection i
  unfolding serve_event
  serve_event-other accept_failed s f = refl
  serve_event-other (accepted j) s f = if_false _ _ f
  serve_event-other (read j inc) s f = if_false _ _ f
  serve_event-other (responded j) s f = respond_one-other j (s.connection j) s f
  serve_event-other (wrote j done) s f = if_false _ _ f

  IsNext : List Event → Connection → Type 0
  IsNext es x = IsOnTrack request x × (es ≡ rest_of i incoming x)

  serve_accepted :
      (e : Event) (s : Serving S)
      → e ≡ accepted i
      → s.connection i ≡ absent
      → (serve_event p e s).connection i ≡ reading
  unfolding serve_event
  serve_accepted e s t c = rw t (rw (eq_refl i) (rw c refl))

  serve_read :
      (e : Event) (s : Serving S)
      → e ≡ read i (some incoming)
      → s.connection i ≡ reading
      → (serve_event p e s).connection i ≡ requested request
  unfolding serve_event
  serve_read e s t c = rw t (rw (eq_refl i) (rw c refl))

  serve_responded :
      (e : Event) (s : Serving S) (r : Bytes)
      → e ≡ responded i
      → s.connection i ≡ requested r
      → (serve_event p e s).connection i ≡ writing r (respond p r s.provider).0
  unfolding serve_event respond_one
  serve_responded e s r t c = rw t (rw c (rw (eq_refl i) refl))

  serve_wrote :
      (e : Event) (s : Serving S) (r response : Bytes)
      → e ≡ wrote i true
      → s.connection i ≡ writing r response
      → (serve_event p e s).connection i ≡ written r response
  unfolding serve_event
  serve_wrote e s r response t c = rw t (rw (eq_refl i) (rw c refl))

  -- One event of the connection that is the next to come.
  step :
      (x : Connection) (e : Event) (es : List Event) (s : Serving S)
      → s.connection i ≡ x
      → IsNext (e ∷ es) x
      → IsNext es ((serve_event p e s).connection i)
  unfolding IsNext
  step absent e es s c (h, t) =
      subst (IsNext es) (sym (serve_accepted e s (cons-head t) c)) (tt, cons-tail t)
  step reading e es s c (h, t) =
      subst (IsNext es) (sym (serve_read e s (cons-head t) c)) (refl, cons-tail t)
  step (requested r) e es s c (h, t) =
      subst (IsNext es) (sym (serve_responded e s r (cons-head t) c)) (h, cons-tail t)
  step (writing r response) e es s c (h, t) =
      subst (IsNext es) (sym (serve_wrote e s r response (cons-head t) c)) (h, cons-tail t)
  step closed e es s c (h, t) = absurd h
  step (written r response) e es s c (h, t) = absurd (cons-ne-nil t)

  serve_events-IsNext :
      (es : List Event) (s : Serving S)
      → IsNext (of_connection i es) (s.connection i)
      → IsNext [] ((serve_events p es s).connection i)
  unfolding serve_events
  serve_events-IsNext [] s h = h
  serve_events-IsNext (e ∷ es) s h =
      serve_events-IsNext es (serve_event p e s) (elim (Bool-cases (is_of i e)) [
        | inl t ↦
            step (s.connection i) e (of_connection i es) s refl
              (subst (λ l. IsNext l (s.connection i)) (rw t refl) h)
        | inr f ↦
            subst (IsNext (of_connection i es)) (sym (serve_event-other e s f))
              (subst (λ l. IsNext l (s.connection i)) (rw f refl) h)
      ])

  IsNext-written :
      (x : Connection) → IsNext [] x → (response : Bytes) × (x ≡ written request response)
  unfolding IsNext
  IsNext-written absent (h, t) = absurd (cons-ne-nil (sym t))
  IsNext-written reading (h, t) = absurd (cons-ne-nil (sym t))
  IsNext-written (requested r) (h, t) = absurd (cons-ne-nil (sym t))
  IsNext-written (writing r response) (h, t) = absurd (cons-ne-nil (sym t))
  IsNext-written closed (h, t) = absurd h
  IsNext-written (written r response) (h, t) = (response, ap (λ q. written q response) h)

  -- If the events of a connection are those of a handling without failure, then, whatever the events of
  -- the other connections between them, `Serve` has written on it what `respond` makes of the first
  -- 128 bytes that came in, where there is at least one, at one point of the run and in the state of the provider that the requests
  -- before that point have left.
  pub serve_handles :
      (events : List Event) (s : S)
      → of_connection i events
        ≡ accepted i ∷ read i (some (first ∷ others)) ∷ responded i ∷ wrote i true ∷ []
      → (response : Bytes) × ((serve p none events s).1.connection i
          ≡ written (take max_request_size (first ∷ others)) response)
        × IsAnswered p events s i (take max_request_size (first ∷ others)) response
  unfolding serve IsNext
  serve_handles events s t =
      let (response, w) = IsNext-written _ (serve_events-IsNext events _ (tt, t)) in
      (response, w, (serve_answers p events s i request response w).1)
