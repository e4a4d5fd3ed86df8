-- ===== src/Protocol/Serving.antt =====
-- What the connections get, however their handling is interleaved.
use mathlib.Core.List.{Memᴰ}
use compute_user_accounts.Base.{
  ℕ, ◌≡◌, refl, sym, ap, subst, inl, inr, Bool, true, false, List, [], ◌∷◌, ◌++◌, Option, none,
  some, Bytes, take, ◌==◌, Bool-cases, if◌then◌else◌, arith,
}
use compute_user_accounts.Accounts.{AccountProvider}
use compute_user_accounts.Server.Respond.{respond, max_request_size}
use compute_user_accounts.Server.Serve.{
  Connection, absent, reading, requested, writing, closed, written, Serving, Event, accept_failed,
  accept_one, read_one, request_read, write_one, accepted, read, responded, wrote, respond_one,
  serve_event, serve_events, serve,
}

-- What is known of the request of a connection.
abbrev Known : Type 1
Known = ℕ → Bytes → Type 0

-- What is known of a response on a connection.
abbrev Answers : Type 1
Answers = ℕ → Bytes → Bytes → Type 0

Mem-middle : {e : Event} (before after : List Event) → Memᴰ e (before ++ e ∷ after)
Mem-middle [] after = Memᴰ.head refl
Mem-middle (f ∷ before) after = Memᴰ.tail (Mem-middle before after)

module _ {S : Type 0} (p : AccountProvider S) where
  module _ (K : Known) (A : Answers) where
    abbrev IsServed : ℕ → Connection → Type 0
    IsServed i (requested request) = K i request
    IsServed i (writing request response) = K i request × A i request response
    IsServed i (written request response) = K i request × A i request response
    IsServed i x = Unit {0}

    -- An event keeps to what is known: of a request that it reads, and of a response that it makes.
    abbrev Keeps : Event → Serving S → Type 0
    Keeps (read i (some incoming)) s = K i (take max_request_size incoming)
    Keeps (responded i) s = (request : Bytes) → A i request (respond p request s.provider).0
    Keeps e s = Unit {0}

    abbrev AllServed : Serving S → Type 0
    AllServed s = (i : ℕ) → IsServed i (s.connection i)

    set_connection-IsServed :
        (i j : ℕ) (x : Connection) (connection : ℕ → Connection)
        → IsServed i x
        → IsServed j (connection j)
        → IsServed j (if i == j then x else connection j)
    set_connection-IsServed i j x connection new old = elim (Bool-cases (i == j)) [
      | inl t ↦ rw t (subst (λ k. IsServed k x) (ground (arith, t)) new)
      | inr f ↦ rw f old
    ]

    accept_one-IsServed : (i : ℕ) (x : Connection) → IsServed i x → IsServed i (accept_one x)
    accept_one-IsServed i absent h = tt
    accept_one-IsServed i reading h = h
    accept_one-IsServed i (requested request) h = h
    accept_one-IsServed i (writing request response) h = h
    accept_one-IsServed i closed h = h
    accept_one-IsServed i (written request response) h = h

    request_read-IsServed :
        (i : ℕ) (incoming : Option Bytes) (s : Serving S)
        → Keeps (read i incoming) s
        → IsServed i (request_read incoming)
    request_read-IsServed i none s b = tt
    request_read-IsServed i (some []) s b = tt
    request_read-IsServed i (some (c ∷ incoming)) s b = b

    read_one-IsServed :
        (i : ℕ) (incoming : Option Bytes) (s : Serving S) (x : Connection)
        → Keeps (read i incoming) s
        → IsServed i x
        → IsServed i (read_one incoming x)
    read_one-IsServed i incoming s absent b h = h
    read_one-IsServed i incoming s reading b h = request_read-IsServed i incoming s b
    read_one-IsServed i incoming s (requested request) b h = h
    read_one-IsServed i incoming s (writing request response) b h = h
    read_one-IsServed i incoming s closed b h = h
    read_one-IsServed i incoming s (written request response) b h = h

    write_one-IsServed :
        (i : ℕ) (done : Bool) (x : Connection) → IsServed i x → IsServed i (write_one done x)
    write_one-IsServed i done absent h = h
    write_one-IsServed i done reading h = h
    write_one-IsServed i done (requested request) h = h
    write_one-IsServed i true (writing request response) h = h
    write_one-IsServed i false (writing request response) h = tt
    write_one-IsServed i done closed h = h
    write_one-IsServed i done (written request response) h = h

    respond_one-AllServed :
        (i : ℕ) (x : Connection) (s : Serving S)
        → Keeps (responded i) s
        → IsServed i x
        → AllServed s
        → AllServed (respond_one p i x s)
    unfolding respond_one
    respond_one-AllServed i absent s b h all j = all j
    respond_one-AllServed i reading s b h all j = all j
    respond_one-AllServed i (requested request) s b h all j =
        set_connection-IsServed i j (writing request (respond p request s.provider).0) s.connection
          (h, b request) (all j)
    respond_one-AllServed i (writing request response) s b h all j = all j
    respond_one-AllServed i closed s b h all j = all j
    respond_one-AllServed i (written request response) s b h all j = all j

    serve_event-AllServed :
        (e : Event) (s : Serving S) → Keeps e s → AllServed s → AllServed (serve_event p e s)
    unfolding serve_event
    serve_event-AllServed accept_failed s b all j = all j
    serve_event-AllServed (accepted i) s b all j =
        set_connection-IsServed i j (accept_one (s.connection i)) s.connection
          (accept_one-IsServed i (s.connection i) (all i)) (all j)
    serve_event-AllServed (read i incoming) s b all j =
        set_connection-IsServed i j (read_one incoming (s.connection i)) s.connection
          (read_one-IsServed i incoming s (s.connection i) b (all i)) (all j)
    serve_event-AllServed (responded i) s b all j =
        respond_one-AllServed i (s.connection i) s b (all i) all j
    serve_event-AllServed (wrote i done) s b all j =
        set_connection-IsServed i j (write_one done (s.connection i)) s.connection
          (write_one-IsServed i done (s.connection i) (all i)) (all j)

    serve_events-AllServed :
        (es : List Event) (s : Serving S)
        → ((before after : List Event) (e : Event)
            → es ≡ before ++ e ∷ after
            → Keeps e (serve_events p before s))
        → AllServed s
        → AllServed (serve_events p es s)
    unfolding serve_events
    serve_events-AllServed [] s b all = all
    serve_events-AllServed (e ∷ es) s b all =
        serve_events-AllServed es (serve_event p e s)
          (λ before after f t. b (e ∷ before) after f (ap (λ xs. e ∷ xs) t))
          (serve_event-AllServed e s (b [] es e refl) all)

  -- A request of the connection has been read, of which the buffer has this.
  abbrev pub IsRead : List Event → ℕ → Bytes → Type 0
  IsRead es i request =
      (incoming : Bytes) × Memᴰ (read i (some incoming)) es
      × (request ≡ take max_request_size incoming)

  -- A response is what `respond` makes of the request at one point of the run, in the state of the
  -- provider that the calls before it have left.
  abbrev pub IsAnswered : List Event → S → ℕ → Bytes → Bytes → Type 0
  IsAnswered es s i request response =
      (before after : List Event) × (es ≡ before ++ responded i ∷ after)
      × ((respond p request (serve p none before s).1.provider).0 ≡ response)

  Keeps-IsRead :
      (es before after : List Event) (s : S) (e : Event)
      → es ≡ before ++ e ∷ after
      → Keeps (IsRead es) (IsAnswered es s) e (serve p none before s).1
  Keeps-IsRead es before after s accept_failed t = tt
  Keeps-IsRead es before after s (accepted i) t = tt
  Keeps-IsRead es before after s (read i none) t = tt
  Keeps-IsRead es before after s (read i (some incoming)) t = (
    incoming,
    subst (λ xs. Memᴰ (read i (some incoming)) xs) (sym t) (Mem-middle before after),
    refl,
  )
  Keeps-IsRead es before after s (responded i) t = λ request. (before, after, t, refl)
  Keeps-IsRead es before after s (wrote i done) t = tt

  -- However the handling of the connections is interleaved, whatever reads and writes fail, and however
  -- often `Accept` fails, a response that `Serve` has written on a connection is what `respond` makes of
  -- the first 128 bytes of what was read from the same connection, at one point of the run and in the
  -- state of the provider that the requests before that point have left.
  pub serve_answers :
      (events : List Event) (s : S) (i : ℕ) (request response : Bytes)
      → (serve p none events s).1.connection i ≡ written request response
      → IsRead events i request × IsAnswered events s i request response
  unfolding serve
  serve_answers events s i request response e =
      subst (IsServed (IsRead events) (IsAnswered events s) i) e (
        serve_events-AllServed (IsRead events) (IsAnswered events s) events _
          (λ before after f t. Keeps-IsRead events before after s f t) (λ j. tt) i)
