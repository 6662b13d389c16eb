-- ===== src/Soundness/Only.antt =====
-- Actions that send only what a predicate allows, and the rules by which they are composed.
use mochi_position_manager.Prelude.{
  ◌≡◌, refl, ap, ◌∙◌, Bool, true, false, Option, none, some, List, [], ◌∷◌, ◌++◌, All, All-append,
  if◌then◌else◌,
}
use mochi_position_manager.Session.{
  Db, Sent, Notice, Session, Result, ok, raised, Action, ◌>>=◌, pure, lift, reads, modify, notify,
  send, session_scope,
}
use mochi_position_manager.Soundness.Quiet.{leave-sent}

append_assoc : (a b c : List Sent) → a ++ (b ++ c) ≡ (a ++ b) ++ c
append_assoc [] b c = refl
append_assoc (x ∷ a) b c = ap (◌∷◌ x) (append_assoc a b c)

module _ (Q : Sent → Type 0) where
  -- What was sent since a point is allowed.
  abbrev pub Allowed : (start now : List Sent) → Type 0
  Allowed start now = (new : List Sent) × All Q new × (now ≡ new ++ start)

  pub record Only {A : Type 0} (m : Action A) : Type 0 where
    pub run : (s : Session) → Allowed s.sent (m s).1.sent

  pub chained : (a b c : List Sent) → Allowed a b → Allowed b c → Allowed a c
  chained a b c (xs, h, e) (ys, k, e') =
      (ys ++ xs, All-append Q ys xs k h, e' ∙ ap (λ l. ys ++ l) e ∙ append_assoc ys xs a)

  continued :
      {A B : Type 0} (k : A → Action B)
      → ((a : A) → Only (k a))
      → (start : List Sent) (p : Result A × Session) → Allowed start p.1.sent
      → Allowed start
          (elim p.0 as (λ r. Result B × Session) [
            | ok a ↦ k a p.1
            | raised e ↦ (raised e, p.1)
          ]).1.sent
  continued k g start (ok a, s) h = chained start s.sent (k a s).1.sent h ((g a).run s)
  continued k g start (raised e, s) h = h

  looked :
      {X A : Type 0} (m : Action A) (k : X → Action A)
      → Only m
      → ((x : X) → Only (k x))
      → (o : Option X) (s : Session)
      → Allowed s.sent (elim o as (λ _. Result A × Session) [ none ↦ m s | some x ↦ k x s ]).1.sent
  looked m k h g none s = h.run s
  looked m k h g (some x) s = (g x).run s

module _ {Q : Sent → Type 0} where
  pub Only-pure : {A : Type 0} (a : A) → Only Q (pure a)
  Only-pure a = record { run = λ s. ([], tt, refl) }

  pub Only-lift : {A : Type 0} (r : Result A) → Only Q (lift r)
  Only-lift r = record { run = λ s. ([], tt, refl) }

  pub Only-reads : {A : Type 0} (f : Db → A) → Only Q (reads f)
  Only-reads f = record { run = λ s. ([], tt, refl) }

  pub Only-modify : (f : Db → Db) → Only Q (modify f)
  Only-modify f = record { run = λ s. ([], tt, refl) }

  pub Only-notify : (n : Notice) → Only Q (notify n)
  Only-notify n = record { run = λ s. ([], tt, refl) }

  pub Only-send : (c : Sent) → Q c → Only Q (send c)
  Only-send c h = record { run = λ s. (c ∷ [], (h, tt), refl) }

  pub Only-bind :
      {A B : Type 0} {m : Action A} {k : A → Action B}
      → Only Q m
      → ((a : A) → Only Q (k a))
      → Only Q (m >>= k)
  Only-bind {m = m} {k = k} h g = record { run = λ s. continued Q k g s.sent (m s) (h.run s) }

  pub Only-session_scope : {A : Type 0} {m : Action A} → Only Q m → Only Q (session_scope m)
  unfolding session_scope
  Only-session_scope {m = m} h = record {
    run = λ s.
        let t : Session = record s { commits = [] } in
        let (new, allowed, e) = h.run t in (new, allowed, leave-sent s.current s.commits (m t) ∙ e);
  }

  pub Only-look :
      {X A : Type 0} (f : Session → Option X) (m : Action A) (k : X → Action A)
      → Only Q m
      → ((x : X) → Only Q (k x))
      → Only Q (λ s. elim (f s) as (λ _. Result A × Session) [ none ↦ m s | some x ↦ k x s ])
  Only-look f m k h g = record { run = λ s. looked Q m k h g (f s) s }

  -- The rules for a test and for an answer, with what they tell.
  pub Only-test :
      {A : Type 0} (b : Bool) {m k : Action A}
      → (b ≡ true → Only Q m)
      → (b ≡ false → Only Q k)
      → Only Q (if b then m else k)
  Only-test true h g = h refl
  Only-test false h g = g refl

  pub Only-if :
      {A : Type 0} (b : Bool) {m k : Action A} → Only Q m → Only Q k → Only Q (if b then m else k)
  Only-if true h g = h
  Only-if false h g = g

  pub Only-asked :
      {A B : Type 0} (r : Result A) {k : A → Action B}
      → ((a : A) → r ≡ ok a → Only Q (k a))
      → Only Q (lift r >>= k)
  Only-asked (ok a) g = record { run = λ s. (g a refl).run s }
  Only-asked (raised e) g = record { run = λ s. ([], tt, refl) }

  pub ruleset only_laws =
      (Only-bind, Only-pure, Only-lift, Only-reads, Only-modify, Only-notify, Only-session_scope)
