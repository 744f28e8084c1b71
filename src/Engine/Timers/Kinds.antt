-- ===== src/Engine/Timers/Kinds.antt =====
-- internal/engine/engine.go, "timers": there is one timer of each kind at most.
use sigame_server.Prelude.{
  Bool, List, Option, String, [], add64, any, ap, arith, false, find_first, if◌then◌else◌, none,
  pos, refl, some, subst, sym, true, ℤ, ◌++◌, ◌==◌, ◌∙◌, ◌∷◌, ◌≡◌,
}
use sigame_server.Engine.Kinds.{TimerId, TimerKind, timer_id_eq, timer_kind_eq}
use sigame_server.Engine.State.{Timer}
use sigame_server.Engine.Timers.{
  drop_timer, find_timer, new_timer, remove_timer, start_timer, stop_found, stop_kind, stop_timer,
  timer_of_kind,
}
use sigame_server.Engine.Game.{Game, emit, emit_all}

abbrev pub has_kind : TimerKind → List Timer → Bool
has_kind k = any (λ t. t.kind == k)

-- No two timers have the same kind, and every timer's id carries its kind.
abbrev pub OnePerKind : List Timer → Type 0
OnePerKind [] = Unit {0}
OnePerKind (t ∷ ts) = (has_kind t.kind ts ≡ false) × ((t.id.kind ≡ t.kind) × OnePerKind ts)

eq_kind : (j k : TimerKind) → (j == k) ≡ true → j ≡ k
eq_kind j k h = (timer_kind_eq.same_iff j k).0 h

kind_eq : (j k : TimerKind) → j ≡ k → (j == k) ≡ true
kind_eq j k e = (timer_kind_eq.same_iff j k).1 e

has_kind-drop :
    (k : TimerKind) (id : TimerId) (ts : List Timer)
    → has_kind k ts ≡ false
    → has_kind k (drop_timer id ts) ≡ false
unfolding drop_timer
has_kind-drop k id [] h = refl
has_kind-drop k id (t ∷ ts) h = ground (arith, has_kind-drop k id ts)

drop_timer-OnePerKind :
    (id : TimerId) (ts : List Timer) → OnePerKind ts → OnePerKind (drop_timer id ts)
unfolding drop_timer
drop_timer-OnePerKind id [] h = tt
drop_timer-OnePerKind id (t ∷ ts) h = by_test (t.id == id) (drop_timer-OnePerKind id ts (h.1.1))
  where
    by_test :
        (b : Bool)
        → OnePerKind (drop_timer id ts)
        → OnePerKind (if b then ts else t ∷ drop_timer id ts)
    by_test true k = h.1.1
    by_test false k = (has_kind-drop t.kind id ts (h.0), (h.1.0, k))

id_kind : (a b : TimerId) → (a == b) ≡ true → a.kind ≡ b.kind
id_kind a b h = ap (λ x. x.kind) ((timer_id_eq.same_iff a b).0 h)

abbrev KindOf : TimerKind → Option Timer → Type 0
KindOf k none = Unit {0}
KindOf k (some t) = t.id.kind ≡ k

find-KindOf :
    (k : TimerKind) (ts : List Timer) → OnePerKind ts → KindOf k (find_first (λ t. t.kind == k) ts)
find-KindOf k [] h = tt
find-KindOf k (t ∷ ts) h = by_test (t.kind == k) refl (find-KindOf k ts (h.1.1))
  where
    by_test :
        (b : Bool)
        → (t.kind == k) ≡ b
        → KindOf k (find_first (λ t. t.kind == k) ts)
        → KindOf k (if b then some t else find_first (λ t. t.kind == k) ts)
    by_test true e r = h.1.0 ∙ eq_kind t.kind k e
    by_test false e r = r

-- The list without the timer found, if one is found.
abbrev pub drop_found : Option Timer → List Timer → List Timer
drop_found none ts = ts
drop_found (some t) ts = drop_timer t.id ts

pub id_refl : (a : TimerId) → (a == a) ≡ true
id_refl a = (timer_id_eq.same_iff a a).1 refl

-- Where the first timer has another kind, it is not the one that is dropped.
has_kind-pass :
    (k : TimerKind) (u : Timer) (us : List Timer) (o : Option Timer)
    → (u.kind == k) ≡ false
    → u.id.kind ≡ u.kind
    → KindOf k o
    → has_kind k (drop_found o us) ≡ false
    → has_kind k (drop_found o (u ∷ us)) ≡ false
unfolding drop_timer
has_kind-pass k u us none n e h r = ground (arith, n, r)
has_kind-pass k u us (some t) n e h r =
    ground (arith, n, r, id_kind u.id t.id, kind_eq u.kind k, e, h)

-- Without the first timer of a kind, none of that kind is left.
has_kind-drop_found :
    (k : TimerKind) (ts : List Timer)
    → OnePerKind ts
    → has_kind k (drop_found (find_first (λ t. t.kind == k) ts) ts) ≡ false
unfolding drop_timer
has_kind-drop_found k [] h = refl
has_kind-drop_found k (u ∷ us) h = by_test (u.kind == k) refl (has_kind-drop_found k us (h.1.1))
  where
    found : Option Timer
    found = find_first (λ t. t.kind == k) us

    by_test :
        (b : Bool)
        → (u.kind == k) ≡ b
        → has_kind k (drop_found found us) ≡ false
        → has_kind k (drop_found (if b then some u else found) (u ∷ us)) ≡ false
    by_test true e r = ground (arith, id_refl u.id, h.0, eq_kind u.kind k e)
    by_test false e r = has_kind-pass k u us found e (h.1.0) (find-KindOf k us (h.1.1)) r

before : (b c : Bool) → (if b then true else c) ≡ false → b ≡ false
before b c h = ground arith

later : (b c : Bool) → (if b then true else c) ≡ false → c ≡ false
later b c h = ground arith

other : (j k : TimerKind) → (j == k) ≡ false → (k == j) ≡ false
other j k h = ground (arith, h, eq_kind k j, kind_eq j k)

any-snoc :
    (p : Timer → Bool) (ts : List Timer) (t : Timer)
    → any p ts ≡ false
    → p t ≡ false
    → any p (ts ++ t ∷ []) ≡ false
any-snoc p [] t h e = ground (arith, e)
any-snoc p (u ∷ us) t h e = ground (arith, e, h, any-snoc p us t)

has_kind-snoc :
    (k : TimerKind) (ts : List Timer) (t : Timer)
    → has_kind k ts ≡ false
    → (t.kind == k) ≡ false
    → has_kind k (ts ++ t ∷ []) ≡ false
has_kind-snoc k ts t h e = any-snoc (λ t. t.kind == k) ts t h e

OnePerKind-snoc :
    (ts : List Timer) (t : Timer)
    → OnePerKind ts
    → has_kind t.kind ts ≡ false
    → t.id.kind ≡ t.kind
    → OnePerKind (ts ++ t ∷ [])
OnePerKind-snoc [] t h n e = (refl, (e, tt))
OnePerKind-snoc (u ∷ us) t h n e = (
  has_kind-snoc u.kind us t (h.0)
      (other u.kind t.kind (before (u.kind == t.kind) (has_kind t.kind us) n)),
  (h.1.0, OnePerKind-snoc us t (h.1.1) (later (u.kind == t.kind) (has_kind t.kind us) n) e),
)

drop_timer-absent :
    (id : TimerId) (ts : List Timer)
    → find_first (λ t. t.id == id) ts ≡ none
    → drop_timer id ts ≡ ts
unfolding drop_timer
drop_timer-absent id [] h = refl
drop_timer-absent id (t ∷ ts) h = ground (arith, h, drop_timer-absent id ts)

timers-stop_timer :
    (id : TimerId) (g : Game) → (stop_timer id g).st.timers ≡ drop_timer id g.st.timers
unfolding stop_timer find_timer remove_timer emit_all emit
timers-stop_timer id g = ground (arith, drop_timer-absent id g.st.timers)

timers-stop_found :
    (o : Option Timer) (g : Game) → (stop_found o g).st.timers ≡ drop_found o g.st.timers
unfolding stop_found
timers-stop_found none g = refl
timers-stop_found (some t) g = timers-stop_timer t.id g

timers-stop_kind :
    (k : TimerKind) (g : Game)
    → (stop_kind k g).st.timers ≡ drop_found (find_first (λ t. t.kind == k) g.st.timers) g.st.timers
unfolding stop_kind timer_of_kind
timers-stop_kind k g = timers-stop_found (find_first (λ t. t.kind == k) g.st.timers) g

drop_found-OnePerKind :
    (o : Option Timer) (ts : List Timer) → OnePerKind ts → OnePerKind (drop_found o ts)
drop_found-OnePerKind none ts h = h
drop_found-OnePerKind (some t) ts h = drop_timer-OnePerKind t.id ts h

timers-start_timer :
    (k : TimerKind) (dur : ℤ) (id : String) (g : Game)
    → (start_timer k dur id g).st.timers
      ≡ (stop_kind k g).st.timers
        ++ new_timer k (add64 (stop_kind k g).timer_seq (pos 1)) dur id (stop_kind k g) ∷ []
unfolding start_timer emit_all emit
timers-start_timer k dur id g = ground arith

-- Where no two timers have the same kind, stopping and starting a timer keep it so: after a stop
-- no timer of that kind is left.
pub start_timer-OnePerKind :
    (k : TimerKind) (dur : ℤ) (id : String) (g : Game)
    → OnePerKind g.st.timers
    → (OnePerKind (stop_kind k g).st.timers × (has_kind k (stop_kind k g).st.timers ≡ false))
      × OnePerKind (start_timer k dur id g).st.timers
start_timer-OnePerKind k dur id g h = (
  stopped,
  subst OnePerKind (sym (timers-start_timer k dur id g)) (
      OnePerKind-snoc (stop_kind k g).st.timers
        (new_timer k (add64 (stop_kind k g).timer_seq (pos 1)) dur id (stop_kind k g)) (stopped.0)
        (stopped.1) refl),
)
  where
    found : Option Timer
    found = find_first (λ t. t.kind == k) g.st.timers

    stopped : OnePerKind (stop_kind k g).st.timers × (has_kind k (stop_kind k g).st.timers ≡ false)
    stopped = (
      subst OnePerKind (sym (timers-stop_kind k g)) (drop_found-OnePerKind found g.st.timers h),
      ap (has_kind k) (timers-stop_kind k g) ∙ has_kind-drop_found k g.st.timers h,
    )
