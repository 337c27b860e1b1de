-- ===== src/Naming/Builder/Invariant.antt =====
-- What holds of a builder after any calls.
use motor.Base.{
  ℕ, ◌≤◌, Text, Dict, true, false, ◌≡◌, refl, subst, inl, inr, Option, none, some, List, [], ◌∷◌,
  arith, All, length, modify, get_elem?, lookup, lookup-insert, insert, text_eq, text_eq_iff,
  occurrences, All-modify, All-append, is_empty, Bool-cases, Option-cases, ◌==◌,
}
use motor.Naming.Types.{InstancesInfo, ServerInfo, Resolve, EtcdConf, EtcdBuilder}
use motor.Naming.Builder.{
  discovery, subscribe, subscribe_to, wake, signal, store, receive, close_resolve, Call, discovers,
  stores, receives, closes, after_receive, step, run, start_watch, server_of, take_token,
  new_builder,
}
use motor.Naming.Builder.Wakeup.{resolves-subscribe}
use motor.Naming.Builder.Kept.{discovery-named, discovery-empty}

-- An unknown service has no watch, a known one exactly one.
abbrev WatchedOnce : Option ServerInfo → ℕ → Type 0
WatchedOnce none n = n ≡ 0
WatchedOnce (some srv) n = (srv.once ≡ true) × (n ≡ 1)

pub record IsValid (e : EtcdBuilder) : Type 0 where
  pub tokens : All (λ (v : Resolve). v.event ≤ 1) e.resolves
  pub watched : (sn : Text) → WatchedOnce (lookup sn e.servers) (occurrences sn e.watches)

pub new_builder-IsValid : (conf : EtcdConf) → IsValid (new_builder conf)
unfolding lookup occurrences
new_builder-IsValid conf = record { tokens = tt; watched = λ sn. refl }

-- A write of an entry whose watch runs.
insert-watched :
    (sn sn' : Text) (srv : ServerInfo) (m : Dict ServerInfo) (ws : List Text)
    → srv.once ≡ true
    → occurrences sn' ws ≡ 1
    → WatchedOnce (lookup sn m) (occurrences sn ws)
    → WatchedOnce (lookup sn (insert sn' srv m)) (occurrences sn ws)
insert-watched sn sn' srv m ws on one here = elim (Bool-cases (text_eq sn' sn)) [
  | inl same ↦
      rw (lookup-insert sn' sn srv m, same)
        (on, subst (λ q. occurrences q ws ≡ 1) ((text_eq_iff sn' sn).0 same) one)
  | inr other ↦ rw (lookup-insert sn' sn srv m, other) here
]

-- The first write of an entry, whose watch is started.
insert-first :
    (sn sn' : Text) (old srv : ServerInfo) (m : Dict ServerInfo) (ws : List Text)
    → srv.once ≡ true
    → occurrences sn' ws ≡ 0
    → WatchedOnce (lookup sn m) (occurrences sn ws)
    → WatchedOnce (lookup sn (insert sn' srv (insert sn' old m))) (occurrences sn (sn' ∷ ws))
unfolding occurrences
insert-first sn sn' old srv m ws on zero' here = elim (Bool-cases (text_eq sn' sn)) [
  | inl same ↦
      let seen = subst (λ q. occurrences q ws ≡ 0) ((text_eq_iff sn' sn).0 same) zero' in
      rw (lookup-insert sn' sn srv (insert sn' old m), same) (on, omega (arith, seen))
  | inr other ↦
      rw (lookup-insert sn' sn srv (insert sn' old m), other, lookup-insert sn' sn old m, other)
        (subst (WatchedOnce (lookup sn m)) (omega arith) here)
]

subscribe_to-watched :
    (sn sn' : Text) (srv : ServerInfo) (e : EtcdBuilder)
    → (srv.once ≡ true → occurrences sn' e.watches ≡ 1)
    → (srv.once ≡ false → occurrences sn' e.watches ≡ 0)
    → WatchedOnce (lookup sn e.servers) (occurrences sn e.watches)
    → WatchedOnce
        (lookup sn (subscribe_to sn' srv e).servers)
        (occurrences sn (subscribe_to sn' srv e).watches)
unfolding subscribe_to
subscribe_to-watched sn sn' srv e on off here = elim (Bool-cases srv.once) [
  | inl o ↦
      rw (o, subscribe_to, start_watch)
        (insert-watched sn sn' _ e.servers e.watches refl (on o) here)
  | inr o ↦
      rw (o, subscribe_to, start_watch)
        (insert-first sn sn' _ _ e.servers e.watches refl (off o) here)
]

server_of-watched :
    (sn : Text) (e : EtcdBuilder) (o : Option ServerInfo)
    → lookup sn e.servers ≡ o
    → WatchedOnce o (occurrences sn e.watches)
    → ((server_of sn e).once ≡ true → occurrences sn e.watches ≡ 1)
      × ((server_of sn e).once ≡ false → occurrences sn e.watches ≡ 0)
unfolding server_of
server_of-watched sn e none k w = rw (k, server_of) (λ f. cc, λ _. w)
server_of-watched sn e (some srv) k w = rw (k, server_of) (λ _. w.1, λ f. cc (w.0))

subscribe-watched :
    (sn sn' : Text) (e : EtcdBuilder)
    → IsValid e
    → WatchedOnce (lookup sn (subscribe sn' e).servers) (occurrences sn (subscribe sn' e).watches)
unfolding subscribe
subscribe-watched sn sn' e v =
    let (on, off) = server_of-watched sn' e (lookup sn' e.servers) refl (v.watched sn') in
    subscribe_to-watched sn sn' (server_of sn' e) e on off (v.watched sn)

wake-tokens :
    (ids : List ℕ) (rs : List Resolve)
    → All (λ (v : Resolve). v.event ≤ 1) rs
    → All (λ (v : Resolve). v.event ≤ 1) (wake ids rs)
unfolding wake
wake-tokens [] rs h = h
wake-tokens (r ∷ ids) rs h =
    wake-tokens ids (modify r signal rs) (
      All-modify (λ (v : Resolve). v.event ≤ 1) r signal rs (λ v b. unfold signal in ground arith)
        h)

discovery-IsValid : (sn : Text) (e : EtcdBuilder) → IsValid e → IsValid (discovery sn e).1
discovery-IsValid sn e v = elim (Bool-cases (is_empty sn)) [
  | inl z ↦ rw (discovery-empty sn e z) v
  | inr z ↦ rw (discovery-named sn e z) (record {
    tokens =
        rw (resolves-subscribe sn e)
          (All-append (λ (v : Resolve). v.event ≤ 1) e.resolves _ v.tokens (omega arith, tt));
    watched = λ q. subscribe-watched q sn e v;
  })
]

-- An entry that is in the map is watched.
known_once :
    (sn : Text) (srv : ServerInfo) (e : EtcdBuilder)
    → IsValid e
    → lookup sn e.servers ≡ some srv
    → (srv.once ≡ true) × (occurrences sn e.watches ≡ 1)
known_once sn srv e v k = subst (λ o. WatchedOnce o (occurrences sn e.watches)) k (v.watched sn)

store-IsValid :
    (sn : Text) (ins : InstancesInfo) (e : EtcdBuilder) → IsValid e → IsValid (store sn ins e)
unfolding store
store-IsValid sn ins e v = elim (Option-cases (lookup sn e.servers)) [
  | inl k ↦ rw (k, store) v
  | inr (srv, k) ↦
      let (on, one) = known_once sn srv e v k in
      rw (k, store)
        (record {
          tokens = wake-tokens srv.resolver e.resolves v.tokens;
          watched = λ q. insert-watched q sn _ e.servers e.watches on one (v.watched q);
        })
]

close_resolve-IsValid :
    (r : ℕ) (sn : Text) (e : EtcdBuilder) → IsValid e → IsValid (close_resolve r sn e)
unfolding close_resolve
close_resolve-IsValid r sn e v = elim (Option-cases (lookup sn e.servers)) [
  | inl k ↦ rw (k, close_resolve) v
  | inr (srv, k) ↦
      let (on, one) = known_once sn srv e v k in
      rw (k, close_resolve)
        (elim (Bool-cases (0 == length srv.resolver)) [
          | inl z ↦ rw z v
          | inr z ↦ rw z (record {
            tokens = v.tokens;
            watched = λ q. insert-watched q sn _ e.servers e.watches on one (v.watched q);
          })
        ])
]

receive-IsValid : (r : ℕ) (e : EtcdBuilder) → IsValid e → IsValid (after_receive e (receive r e))
unfolding receive after_receive
receive-IsValid r e v = elim (Option-cases (get_elem? e.resolves r)) [
  | inl k ↦ rw (k, receive) v
  | inr (x, k) ↦
      rw (k, receive)
        (elim (Bool-cases (x.event == 0)) [
          | inl z ↦ rw z v
          | inr z ↦ rw z (record {
            tokens =
                All-modify (λ (v : Resolve). v.event ≤ 1) r take_token e.resolves
                  (λ w b. unfold take_token in omega arith) v.tokens;
            watched = v.watched;
          })
        ])
]

step-IsValid : (e : EtcdBuilder) (c : Call) → IsValid e → IsValid (step e c)
unfolding step
step-IsValid e (discovers sn) v = discovery-IsValid sn e v
step-IsValid e (stores sn ins) v = store-IsValid sn ins e v
step-IsValid e (receives r) v = receive-IsValid r e v
step-IsValid e (closes r sn) v = close_resolve-IsValid r sn e v

run_keeps : (e : EtcdBuilder) (cs : List Call) → IsValid e → IsValid (run e cs)
unfolding run
run_keeps e [] v = v
run_keeps e (c ∷ cs) v = run_keeps (step e c) cs (step-IsValid e c v)

-- After any calls on a new builder no channel of a resolver holds more than one token, and a watch
-- was started exactly once for each service in the map and for no other.
pub run_builder-IsValid : (conf : EtcdConf) (cs : List Call) → IsValid (run (new_builder conf) cs)
run_builder-IsValid conf cs = run_keeps (new_builder conf) cs (new_builder-IsValid conf)
