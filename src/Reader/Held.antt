-- ===== src/Reader/Held.antt =====
-- reader.go: no connection is left over.
use iplsgo.Prelude.{
  ◌≡◌, refl, Bool, true, false, Option, none, some, ◌⊎◌, inl, inr, List, Str, if◌then◌else◌, sym,
  is_some, arith,
}
use mathlib.Core.Option.{some-injective}
use iplsgo.Tasker.{Error, Driver}
use iplsgo.Reader.{
  Service, pinged, kept, made, login, Read, read_with, read_config, stm_read_config,
}

module _ (d : Driver) (r : Service d) (Live : d.World → d.Conn → Type 0) where
  open d use {World, Conn, new_connection, is_connected, close, free}

  -- What the driver does with the connections that are live.
  pub record Releases : Type 0 where
    pub opens :
        (x : World) (c : Conn)
        → Live (new_connection r.username r.password r.sid x).0 c
        → Live x c ⊎ ((new_connection r.username r.password r.sid x).1 ≡ some c)
    pub frees : (x : World) (k c : Conn) → Live (free k x) c → Live x c × (c ≡ k → ⊥)
    pub closes : (x : World) (k c : Conn) → Live (close k x).0 c → Live x c
    pub pings : (x : World) (k c : Conn) → Live (r.ping k x).0 c → Live x c
    pub selects :
        (x : World) (k c : Conn) (stm : Str) (args : List Str)
        → Live (r.select k stm args x).0 c
        → Live x c

  -- The only live connection is the one that is held.
  abbrev pub Held : Option Conn → World → Type 0
  Held o x = (c : Conn) → Live x c → o ≡ some c

  module _ (h : Releases) where
    pub freed : (k : Conn) (x : World) → Held (some k) x → Held none (free k x)
    freed k x p c l = let q = h.frees x k c l in absurd (q.1 (some-injective _ _ (sym (p c q.0))))

    pinged-Held :
        (k : Conn) (q : World × Option Error)
        → Held (some k) q.0
        → Held (pinged d r k q).0 (pinged d r k q).1
    pinged-Held k (x, none) p = p
    pinged-Held k (x, some e) p = freed k (close k x).0 (λ c l. p c (h.closes x k c l))

    if-Held :
        (b : Bool) (q u : Option Conn × World)
        → Held q.0 q.1
        → Held u.0 u.1
        → Held (if b then q else u).0 (if b then q else u).1
    if-Held true q u p g = p
    if-Held false q u p g = g

    kept-Held : (o : Option Conn) (x : World) → Held o x → Held (kept d r o x).0 (kept d r o x).1
    kept-Held none x p = p
    kept-Held (some k) x p =
        if-Held (is_connected k x) (pinged d r k (r.ping k x)) (none, free k x)
          (pinged-Held k (r.ping k x) (λ c l. p c (h.pings x k c l))) (freed k x p)

    made-Held :
        (q : World × Option Conn × Option Error) → Held q.1 q.0 → Held (made d r q).1 (made d r q).2
    made-Held (x, c, none) p = p
    made-Held (x, none, some e) p = p
    made-Held (x, some k, some e) p = freed k x p

    opened :
        (x : World)
        → Held none x
        → Held
            (new_connection r.username r.password r.sid x).1
            (new_connection r.username r.password r.sid x).0
    opened x p c l = elim (h.opens x c l) [ inl q ↦ absurd (ground (arith, p c q)) | inr e ↦ e ]

    login-Held : (q : Option Conn × World) → Held q.0 q.1 → Held (login d r q).1 (login d r q).2
    login-Held (some c, x) p = p
    login-Held (none, x) p = made-Held (new_connection r.username r.password r.sid x) (opened x p)

    abbrev pub HeldAfter : Read d r → Type 0
    HeldAfter none = Unit {0}
    HeldAfter (some (buf, c, x)) = Held c x

    read_with-Held :
        (q : Option Error × Option Conn × World) → Held q.1 q.2 → HeldAfter (read_with d r q)
    read_with-Held (some e, c, x) p = p
    read_with-Held (none, none, x) p = tt
    read_with-Held (none, some k, x) p = λ c l. p c (h.selects x k c stm_read_config _ l)

    pub read_config-Held :
        (o : Option Conn) (x : World) → Held o x → HeldAfter (read_config d r o x)
    unfolding read_config
    read_config-Held o x p =
        read_with-Held (login d r (kept d r o x)) (login-Held (kept d r o x) (kept-Held o x p))

    pub read_with-is_some :
        (q : Option Error × Option Conn × World)
        → (q.0 ≡ none → is_some q.1 ≡ true)
        → is_some (read_with d r q) ≡ true
    read_with-is_some (some e, c, x) g = refl
    read_with-is_some (none, none, x) g = absurd (ground (arith, g refl))
    read_with-is_some (none, some k, x) g = refl

    pub made-is_some :
        (q : World × Option Conn × Option Error)
        → (q.2 ≡ none → is_some q.1 ≡ true)
        → (made d r q).0 ≡ none
        → is_some (made d r q).1 ≡ true
    made-is_some (x, c, none) g e = g refl
    made-is_some (x, none, some f) g e = cc
    made-is_some (x, some k, some f) g e = cc
