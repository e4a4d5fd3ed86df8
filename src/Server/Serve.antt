-- ===== src/Server/Serve.antt =====
-- `Serve`: the loop that accepts connections, and the goroutines that handle them, interleaved. A
-- connection is named by a number. A call of the provider is one step of its own.
use compute_user_accounts.Base.{
  ℕ, Bool, List, [], ◌∷◌, Option, none, some, Bytes, take, ◌==◌, if◌then◌else◌,
}
use compute_user_accounts.Accounts.{Error, AccountProvider}
use compute_user_accounts.Server.Respond.{max_request_size, respond}

-- Where the handling of a connection stands: before the read, with the request that was read, with
-- the response to be written, and closed, with the response if it was written.
pub data Connection : Type 0 where
  absent : Connection
  reading : Connection
  requested : Bytes → Connection
  writing : (request response : Bytes) → Connection
  closed : Connection
  written : (request response : Bytes) → Connection

pub record Serving (S : Type 0) : Type 0 where
  pub provider : S
  pub connection : ℕ → Connection

-- What happens next: an accept that fails or succeeds; a read that fails, also by its deadline, or
-- brings what has come in; a call of the provider; a write that fails or succeeds.
pub data Event : Type 0 where
  accept_failed : Event
  accepted : ℕ → Event
  read : ℕ → Option Bytes → Event
  responded : ℕ → Event
  wrote : ℕ → Bool → Event

abbrev pub set_connection : ℕ → Connection → (ℕ → Connection) → ℕ → Connection
set_connection i x connection j = if i == j then x else connection j

-- Each part of `handle` takes place only after the one before it.
abbrev pub accept_one : Connection → Connection
accept_one absent = reading
accept_one x = x

-- A read of no bytes is the end of the stream, which is an error.
abbrev pub request_read : Option Bytes → Connection
request_read none = closed
request_read (some []) = closed
request_read (some (c ∷ incoming)) = requested (take max_request_size (c ∷ incoming))

abbrev pub read_one : Option Bytes → Connection → Connection
read_one incoming reading = request_read incoming
read_one incoming x = x

abbrev pub write_one : Bool → Connection → Connection
write_one done (writing request response) = if done then written request response else closed
write_one done x = x

module _ {S : Type 0} (p : AccountProvider S) where
  unfoldable pub respond_one : ℕ → Connection → Serving S → Serving S
  respond_one i (requested req) s =
      let (resp, provider) = respond p req s.provider in
      record { provider = provider; connection = set_connection i (writing req resp) s.connection }
  respond_one i x s = s

  unfoldable pub serve_event : Event → Serving S → Serving S
  unfolding respond_one
  serve_event accept_failed s = s
  serve_event (accepted i) s = record s {
    connection = set_connection i (accept_one (s.connection i)) s.connection;
  }
  serve_event (read i incoming) s = record s {
    connection = set_connection i (read_one incoming (s.connection i)) s.connection;
  }
  serve_event (responded i) s = respond_one i (s.connection i) s
  serve_event (wrote i done) s = record s {
    connection = set_connection i (write_one done (s.connection i)) s.connection;
  }

  unfoldable pub serve_events : List Event → Serving S → Serving S
  unfolding serve_event
  serve_events [] s = s
  serve_events (e ∷ es) s = serve_events es (serve_event e s)

  -- `Serve`, as far as these events: it returns only if it cannot listen.
  unfoldable pub serve : Option Error → List Event → S → Option Error × Serving S
  unfolding serve_events
  serve (some e) events s = (some e, record { provider = s; connection = λ i. absent })
  serve none events s =
      (none, serve_events events (record { provider = s; connection = λ i. absent }))
