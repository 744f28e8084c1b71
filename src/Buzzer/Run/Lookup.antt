-- ===== src/Buzzer/Run/Lookup.antt =====
-- internal/buzzer/arm.go: reading a player after a write through a player's pointer.
use sigame_server.Prelude.{
  List, Option, String, [], get_elem?, inl, inr, lookup, modify_at, none, refl, some, subst, suc,
  sym, zero, ℕ, ◌∷◌, ◌≡◌, ◌⊎◌,
}
use sigame_server.Buzzer.Arm.{Arm, ArmPlayer, change_at, player_at, player_of, with_player}

abbrev pub mapped : (ArmPlayer → ArmPlayer) → Option ArmPlayer → Option ArmPlayer
mapped f none = none
mapped f (some p) = some (f p)

-- What is found after a write is what was there, or its image.
abbrev pub Seen : (ArmPlayer → ArmPlayer) → Option ArmPlayer → Option ArmPlayer → Type 0
Seen f old new = (new ≡ old) ⊎ (new ≡ mapped f old)

get_elem?-Seen :
    (f : ArmPlayer → ArmPlayer) (ps : List ArmPlayer) (i k : ℕ)
    → Seen f (get_elem? ps i) (get_elem? (modify_at ps k f) i)
get_elem?-Seen f [] i k = inl refl
get_elem?-Seen f (p ∷ ps) zero zero = inr refl
get_elem?-Seen f (p ∷ ps) (suc i) zero = inl refl
get_elem?-Seen f (p ∷ ps) zero (suc k) = inl refl
get_elem?-Seen f (p ∷ ps) (suc i) (suc k) = get_elem?-Seen f ps i k

player_at-Seen :
    (f : ArmPlayer → ArmPlayer) (ps : List ArmPlayer) (i k : Option ℕ)
    → Seen f (player_at i ps) (player_at i (change_at k f ps))
player_at-Seen f ps none none = inl refl
player_at-Seen f ps none (some k) = inl refl
player_at-Seen f ps (some i) none = inl refl
player_at-Seen f ps (some i) (some k) = get_elem?-Seen f ps i k

pub with_player-Seen :
    (f : ArmPlayer → ArmPlayer) (id j : String) (a : Arm)
    → Seen f (player_of id a) (player_of id (with_player j f a))
unfolding player_of with_player
with_player-Seen f id j a = player_at-Seen f a.players (lookup id a.by_id) (lookup j a.by_id)

get_elem?-modify_at :
    (f : ArmPlayer → ArmPlayer) (ps : List ArmPlayer) (i : ℕ)
    → get_elem? (modify_at ps i f) i ≡ mapped f (get_elem? ps i)
get_elem?-modify_at f [] i = refl
get_elem?-modify_at f (p ∷ ps) zero = refl
get_elem?-modify_at f (p ∷ ps) (suc i) = get_elem?-modify_at f ps i

player_at-change_at :
    (f : ArmPlayer → ArmPlayer) (ps : List ArmPlayer) (i : Option ℕ)
    → player_at i (change_at i f ps) ≡ mapped f (player_at i ps)
player_at-change_at f ps none = refl
player_at-change_at f ps (some i) = get_elem?-modify_at f ps i

pub player_of-with_player :
    (f : ArmPlayer → ArmPlayer) (id : String) (a : Arm)
    → player_of id (with_player id f a) ≡ mapped f (player_of id a)
unfolding player_of with_player
player_of-with_player f id a = player_at-change_at f a.players (lookup id a.by_id)

-- A property of the found player that the write keeps.
pub Seen-keeps {ℓ} :
    (f : ArmPlayer → ArmPlayer) (P : Option ArmPlayer → Type ℓ)
    → ((o : Option ArmPlayer) → P o → P (mapped f o))
    → (old new : Option ArmPlayer) → Seen f old new
    → P old
    → P new
Seen-keeps f P keeps old new (inl p) h = subst P (sym p) h
Seen-keeps f P keeps old new (inr p) h = subst P (sym p) (keeps old h)
