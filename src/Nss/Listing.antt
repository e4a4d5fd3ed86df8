-- ===== src/Nss/Listing.antt =====
-- `setpwent` and `getpwent_r` over the socket of `Server.handle`.
use mathlib.Core.List.{map}
use compute_user_accounts.Base.{
  ℕ, zero, suc, ◌≡◌, refl, ap, ◌∙◌, List, [], ◌∷◌, ◌++◌, Bytes, codes, bytes_eq, none, some,
  get_elem?, inl, inr, Bool-cases, ltb, All, Lacks, arith,
}
use compute_user_accounts.Accounts.{User, Result, ok, err, AccountProvider}
use compute_user_accounts.Server.Marshal.{marshal_user, write_lines}
use compute_user_accounts.Server.Respond.{handle, dispatch, users, reply_lines}
use compute_user_accounts.Protocol.Safe.{IsSafeUser}
use compute_user_accounts.Protocol.RoundTrip.{marshal_user-Lacks}
use compute_user_accounts.Protocol.Wire.{respond_bare, split-write_lines}
use compute_user_accounts.Nss.Outcome.{Outcome, done, thrown, out_of_range}
use compute_user_accounts.Nss.Strings.{tokenize_string}
use compute_user_accounts.Nss.Tokens.{tokenize_string-split}
use compute_user_accounts.Nss.Buffer.{BufferManager}
use compute_user_accounts.Nss.Convert.{Passwd, user_line_to_passwd_struct}
use compute_user_accounts.Nss.Daemon.{Output, multi_line, check_output, load, EntityList, pop}
use compute_user_accounts.Nss.Calls.{Status, not_found, listed, list_next, setpwent, getpwent_r}
use compute_user_accounts.Nss.Entries.{needed}
use compute_user_accounts.Nss.Answers.{
  passwd_answer, daemon_socket, fitted, user_line-fitted, get_daemon_output-received,
}

-- Calls of `getpwent_r`, each with its buffer.
abbrev pub getpwent_calls : List BufferManager → EntityList → List (Status Passwd)
getpwent_calls [] l = []
getpwent_calls (b ∷ bs) l = (getpwent_r b l).0 ∷ getpwent_calls bs (getpwent_r b l).1

-- One user for each call: the entry if the buffer has room, and else the error `ERANGE`; behind the last
-- user, no entry.
abbrev pub entries : List BufferManager → List User → List (Status Passwd)
entries [] us = []
entries (b ∷ bs) [] = not_found none ∷ entries bs []
entries (b ∷ bs) (u ∷ us) = passwd_answer (ok u) b ∷ entries bs us

abbrev skip : ℕ → List Bytes → List Bytes
skip zero ls = ls
skip (suc n) [] = []
skip (suc n) (l ∷ ls) = skip n ls

skip-nil : (n : ℕ) (ls : List Bytes) → skip n ls ≡ [] → get_elem? ls n ≡ none
skip-nil zero [] e = refl
skip-nil zero (l ∷ ls) e = absurd cc
skip-nil (suc n) [] e = refl
skip-nil (suc n) (l ∷ ls) e = skip-nil n ls e

skip-cons :
    (n : ℕ) (ls : List Bytes) (m : Bytes) (ms : List Bytes)
    → skip n ls ≡ m ∷ ms
    → (get_elem? ls n ≡ some m) × (skip (suc n) ls ≡ ms)
skip-cons zero [] m ms e = absurd cc
skip-cons zero (l ∷ ls) m ms e = (cc, cc)
skip-cons (suc n) [] m ms e = absurd cc
skip-cons (suc n) (l ∷ ls) m ms e = skip-cons n ls m ms e

abbrev after_pop : BufferManager → Outcome Bytes × EntityList → Status Passwd × EntityList
after_pop b (thrown e, l) = (listed (thrown e), l)
after_pop b (done line, l) = (listed (user_line_to_passwd_struct line b), l)

getpwent_r-after_pop : (b : BufferManager) (l : EntityList) → getpwent_r b l ≡ after_pop b (pop l)
unfolding getpwent_r list_next
getpwent_r-after_pop b l = go (pop l)
  where
    go :
        (x : Outcome Bytes × EntityList)
        → (elim x.0 [
          | thrown e ↦ (listed (thrown e), x.1)
          | done line ↦ (listed (user_line_to_passwd_struct line b), x.1)
        ])
          ≡ after_pop b x
    go (thrown e, l') = refl
    go (done line, l') = refl

getpwent_r-end :
    (b : BufferManager) (l : EntityList)
    → get_elem? l.output l.index ≡ none
    → getpwent_r b l ≡ (not_found none, l)
unfolding listed pop
getpwent_r-end b l e =
    let popped : pop l ≡ (thrown out_of_range, l) = rw (e, pop) refl in
    getpwent_r-after_pop b l ∙ ap (after_pop b) popped

getpwent_r-line :
    (b : BufferManager) (l : EntityList) (line : Bytes)
    → get_elem? l.output l.index ≡ some line
    → getpwent_r b l
      ≡ (listed (user_line_to_passwd_struct line b), record l { index = suc l.index })
unfolding pop
getpwent_r-line b l line e =
    let popped : pop l ≡ (done line, record l { index = suc l.index }) = rw (e, pop) refl in
    getpwent_r-after_pop b l ∙ ap (after_pop b) popped

listed-fitted : (u : User) (b : BufferManager) → listed (fitted u b) ≡ passwd_answer (ok u) b
unfolding listed
listed-fitted u b = elim (Bool-cases (ltb b.size (needed u))) [
  | inl t ↦ rw t refl
  | inr f ↦ rw f refl
]

getpwent_calls-entries :
    (bs : List BufferManager) (us : List User) (l : EntityList)
    → All IsSafeUser us
    → skip l.index l.output ≡ map marshal_user us
    → getpwent_calls bs l ≡ entries bs us
getpwent_calls-entries [] us l safe e = refl
getpwent_calls-entries (b ∷ bs) [] l safe e =
    rw (getpwent_r-end b l (skip-nil l.index l.output e))
      (ap (λ xs. not_found none ∷ xs) (getpwent_calls-entries bs [] l safe e))
getpwent_calls-entries (b ∷ bs) (u ∷ us) l safe e =
    let (line, rest) = skip-cons l.index l.output (marshal_user u) (map marshal_user us) e in
    rw (getpwent_r-line b l (marshal_user u) line, user_line-fitted u b safe.0)
      (ap (λ xs. listed (fitted u b) ∷ xs)
          (getpwent_calls-entries bs us (record l { index = suc l.index }) safe.1 rest)
        ∙ ap (λ x. x ∷ entries bs us) (listed-fitted u b))

lines-Lacks : (us : List User) → All IsSafeUser us → All (Lacks b'\n') (map marshal_user us)
lines-Lacks [] safe = tt
lines-Lacks (u ∷ us) safe = (marshal_user-Lacks u safe.0, lines-Lacks us safe.1)

tokens-lines :
    (ls : List Bytes)
    → All (Lacks b'\n') ls
    → tokenize_string (codes "200" ++ write_lines ls) b'\n' ≡ codes "200" ∷ ls
tokens-lines ls h =
    tokenize_string-split (codes "200" ++ write_lines ls) b'\n' (λ e. cc)
    ∙ split-write_lines (codes "200") ls (omega arith) h

lines_replied :
    {S : Type 0} (x : Result (List User) × S) (us : List User)
    → x.0 ≡ ok us
    → (reply_lines marshal_user x).0 ≡ codes "200" ++ write_lines (map marshal_user us)
unfolding reply_lines
lines_replied (ok vs, s) us e =
    let same : vs ≡ us = cc in ap (λ l. codes "200" ++ write_lines (map marshal_user l)) same
lines_replied (err x, s) us e = absurd cc

module _ {S : Type 0} (p : AccountProvider S) (s : S) where
  users_replied :
      daemon_socket p s (codes "users") multi_line ≡ some (reply_lines marshal_user (p.users s)).0
  unfolding handle dispatch users bytes_eq
  users_replied = rw (respond_bare p (codes "users") s (omega arith)) refl

  setpwent-users :
      (us : List User)
      → All IsSafeUser us
      → (p.users s).0 ≡ ok us
      → setpwent (daemon_socket p s) ≡ (none, record { index = 0; output = map marshal_user us })
  unfolding setpwent load
  setpwent-users us safe e =
      let received : daemon_socket p s (codes "users") multi_line
          ≡ some (codes "200" ++ write_lines (map marshal_user us)) =
        users_replied ∙ ap some (lines_replied (p.users s) us e) in
      ap (λ (o : Output). (o.exception, record { index = 0; output = o.lines }))
        (get_daemon_output-received (daemon_socket p s) multi_line (codes "users") _ received
          ∙ ap (check_output multi_line) (tokens-lines (map marshal_user us) (lines-Lacks us safe)))
      ∙ (unfold check_output bytes_eq in refl)

  -- Where the users of the provider are safe for the protocol: after `setpwent`, each call of
  -- `getpwent_r` is for the next user in the order of the provider, whatever its buffer; it succeeds
  -- with the entry of this user if the buffer has room, and else reports that it has not, so that the
  -- next call, with a larger buffer, is for the user behind. After the last user there is no entry.
  pub getpwent_r-users :
      (bs : List BufferManager) (us : List User)
      → All IsSafeUser us
      → (p.users s).0 ≡ ok us
      → getpwent_calls bs (setpwent (daemon_socket p s)).1 ≡ entries bs us
  getpwent_r-users bs us safe e =
      rw (setpwent-users us safe e) (getpwent_calls-entries bs us _ safe refl)
