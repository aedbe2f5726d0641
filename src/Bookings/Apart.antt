-- ===== src/Bookings/Apart.antt =====
-- When two bookings do not stand in each other's way.
use real_voice_agent_free.Prelude.{
  ℕ, String, ◌==◌, ◌≡◌, refl, sym, Bool, true, false, Option, List, [], ◌∷◌, ◌++◌, All, All-append,
  All-imp, All-zip, ◌∙◌, DateTime, aware, naive, arith, eq_iff,
}
use real_voice_agent_free.Models.{AgentModel, BookingModel}
use real_voice_agent_free.Session.{replace}
use real_voice_agent_free.Session.Keeps.{All-replace}
use real_voice_agent_free.Availability.{ranges_overlap, is_active, is_excluded}
use real_voice_agent_free.Bookings.Free.{AreDisjoint, LeavesFree}

-- Two different bookings of one agent that both hold their slots, of that length, do not overlap.
-- Only bookings with a time zone are spoken of.
abbrev pub IsApart : ℕ → BookingModel → BookingModel → Type 0
IsApart length b c =
    (b.id == c.id) ≡ false
    → (b.organization_id == c.organization_id) ≡ true
    → (b.agent_id == c.agent_id) ≡ true
    → is_active b.status ≡ true
    → is_active c.status ≡ true
    → (s t : DateTime) → b.start_at ≡ aware s
    → c.start_at ≡ aware t
    → AreDisjoint length s t

AreDisjoint-sym : (length s t : ℕ) → AreDisjoint length s t → AreDisjoint length t s
unfolding ranges_overlap
AreDisjoint-sym length s t h = ground arith

pub eq-sym : (a b : String) (x : Bool) → (a == b) ≡ x → (b == a) ≡ x
eq-sym a b true h = ground (arith, eq_iff a b, eq_iff b a)
eq-sym a b false h = ground (arith, eq_iff a b, eq_iff b a)

eq_trans : (a b c : String) → (a == b) ≡ true → (b == c) ≡ true → (a == c) ≡ true
eq_trans a b c h k = ground (arith, eq_iff a b, eq_iff b c, eq_iff a c)

pub IsApart-sym : (length : ℕ) (b c : BookingModel) → IsApart length b c → IsApart length c b
IsApart-sym length b c h i o a cs bs s t st tt' = AreDisjoint-sym length t s (
    h (eq-sym c.id b.id false i) (eq-sym c.organization_id b.organization_id true o)
      (eq-sym c.agent_id b.agent_id true a) bs cs t s tt' st)

false_ne_true : {A : Type 0} → (b : Bool) → b ≡ true → b ≡ false → A
false_ne_true true t f = cc
false_ne_true false t f = cc

pub IsApart-refl : (length : ℕ) (b : BookingModel) → IsApart length b b
IsApart-refl length b i = false_ne_true (b.id == b.id) ((eq_iff b.id b.id).1 refl) i

-- A booking that holds no slot, or of which the zone is not known, stands in no one's way.
pub inactive-IsApart :
    (length : ℕ) (b c : BookingModel) → is_active b.status ≡ false → IsApart length b c
inactive-IsApart length b c off i o a on = false_ne_true (is_active b.status) on off

pub naive-IsApart :
    (length : ℕ) (b c : BookingModel) (t : ℕ) → b.start_at ≡ naive t → IsApart length b c
naive-IsApart length b c t no_zone i o a bs cs s u zone =
    absurd (naive_ne_aware (sym no_zone ∙ zone))
  where
    naive_ne_aware : {n m : ℕ} → naive n ≡ aware m → ⊥
    naive_ne_aware h = cc

-- A booking for a slot that the others leave free.
pub free-IsApart :
    (length : ℕ) (agent : AgentModel) (excluded : Option String) (b c : BookingModel) (t : DateTime)
    → (agent.id == b.agent_id) ≡ true
    → ((s : DateTime) → b.start_at ≡ aware s → s ≡ t)
    → ((b.id == c.id) ≡ false → is_excluded excluded c ≡ false)
    → LeavesFree length agent b.organization_id excluded t c
    → IsApart length b c
free-IsApart length agent excluded b c t same_agent starts others free i o a bs cs s u bt ct =
    rw (starts s bt) (
      free
        (
          eq-sym b.organization_id c.organization_id true o,
          eq_trans c.agent_id b.agent_id agent.id (eq-sym b.agent_id c.agent_id true a)
              (eq-sym agent.id b.agent_id true same_agent),
          cs,
          others i,
        )
        u ct)

module _ (R : BookingModel → BookingModel → Type 0) where
  -- each stands in the relation to each
  abbrev pub AllPairs : List BookingModel → Type 0
  AllPairs xs = All (λ b. All (R b) xs) xs

  module _ (n : BookingModel) (xs : List BookingModel) (old : AllPairs xs) (to : All (R n) xs)
      (from_ : All (λ b. R b n) xs) (self : R n n) where
    pub AllPairs-append : AllPairs (xs ++ n ∷ [])
    AllPairs-append =
        All-append (λ b. All (R b) (xs ++ n ∷ [])) xs (n ∷ [])
          (All-imp _ _ xs (λ b h. All-append (R b) xs (n ∷ []) h.0 (h.1, tt))
            (All-zip _ _ xs old from_))
          (All-append (R n) xs (n ∷ []) to (self, tt), tt)

    pub AllPairs-replace : (key : BookingModel → String) → AllPairs (replace key n xs)
    AllPairs-replace key =
        All-replace (λ b. All (R b) (replace key n xs)) key n xs
          (All-replace (R n) key n xs self to)
          (All-imp _ _ xs (λ b h. All-replace (R b) key n xs h.1 h.0) (All-zip _ _ xs old from_))
