-- ===== src/Observation/Once.antt =====
-- The deliveries that may wake the participant, in any history of the log's room.
use nunchi.Observation.Restored.{mark_continuity_gap-Grows, reopen-IfSome}
use nunchi.Observation.Reopen.{Reopening, reopen, restart}
use nunchi.Observation.Reopened.{Restored, IfSome}
use nunchi.Observation.Runs.{
  ObserveCall, observe_delivery, Room, happen, woken_in, Happening, opened,
}
use nunchi.Observation.Observe.{Observed, audited, raised}
use nunchi.Prelude.{
  String, Bool, List, elem, All, ◌≡◌, Option, false, [], ◌∷◌, count, true, arith, ◌++◌,
  false_is_not_true, ◌==◌, string_has_eq, some, sym, count-append, Bool-cases, ◌∙◌, inl, refl,
  ==_iff, inr, none, length, subst, ◌≤◌, ◌⊎◌,
}
use nunchi.Observation.Types.{Log, Settings, DeliveryAudit, Actor}
use nunchi.Observation.Known.{Grows, filed_deliveries, filed_events, Grows-same}
use nunchi.Observation.Step.{IsNew, observe-Step, pair_of, woken_of}
use nunchi.Observation.Runs.{delivered, gap_marked, restarted, reopened}

clash : (t : Bool) → t ≡ false → t ≡ true → ⊥
clash t f h = false_is_not_true (sym f ∙ h)

count_none :
    (p : String × String → Bool) (xs ys : List (String × String))
    → count p xs ≡ 0
    → count p ys ≡ 0
    → count p (xs ++ ys) ≡ 0
count_none p xs ys h k = omega (arith, count-append p xs ys)

woken_short : (o : Observed) → length (woken_of o) ≤ 1
woken_short (audited a true) = some_or_none a.event_id
  where
    some_or_none : (e : Option String) → length (pair_of a.delivery_id e) ≤ 1
    some_or_none none = omega arith
    some_or_none (some id) = omega arith
woken_short (audited a false) = omega arith
woken_short raised = omega arith

-- The two kinds of ids by which a delivery is known.
record IdKind : Type 0 where
  pub key : String × String → String
  pub ids : Log → List String
  pub filed : List DeliveryAudit → List String
  pub grow :
      (l l' : Log) → Grows l l' → (x : String) → elem x (ids l) ≡ true → elem x (ids l') ≡ true
  pub keep_filed :
      (l l' : Log)
      → Grows l l'
      → (x : String) → elem x (filed l.audit_file) ≡ true
      → elem x (filed l'.audit_file) ≡ true
  pub new : (l l' : Log) (w : String × String) → IsNew l l' w → elem (key w) (ids l) ≡ false
  pub known : (l l' : Log) (w : String × String) → IsNew l l' w → elem (key w) (ids l') ≡ true
  pub new_filed :
      (l l' : Log) (w : String × String) → IsNew l l' w → elem (key w) (filed l'.audit_file) ≡ true
  pub restored :
      (rows : List DeliveryAudit) (l : Log)
      → Restored rows l
      → (x : String) → elem x (filed rows) ≡ true
      → (elem x (ids l) ≡ true) × (elem x (filed l.audit_file) ≡ true)

delivery_kind : IdKind
delivery_kind = record {
  key = λ w. w.0;
  ids = λ l. l.delivery_ids;
  filed = filed_deliveries;
  grow = λ l l' g x h. g.deliveries x h;
  keep_filed = λ l l' g x h. g.filed x h;
  new = λ l l' w n. n.delivery;
  known = λ l l' w n. n.known.delivery;
  new_filed = λ l l' w n. n.filed;
  restored = λ rows l r x h. (r.deliveries x h, r.filed x h);
}

event_kind : IdKind
event_kind = record {
  key = λ w. w.1;
  ids = λ l. l.event_ids;
  filed = filed_events;
  grow = λ l l' g x h. g.natives x h;
  keep_filed = λ l l' g x h. g.filed_natives x h;
  new = λ l l' w n. n.native;
  known = λ l l' w n. n.known.native;
  new_filed = λ l l' w n. n.filed_native;
  restored = λ rows l r x h. (r.natives x h, r.filed_natives x h);
}

module _ (k : IdKind) (x : String) where
  abbrev is_x : String × String → Bool
  is_x w = k.key w == x

  -- An id in the audit file, which the log knows while it is open.
  record IsKnown (room : Room) : Type 0 where
    pub filed : elem x (k.filed room.1.audit_file) ≡ true
    pub known : room.0 ≡ true → elem x (k.ids room.1) ≡ true

  record Moves (room : Room) (r : List (String × String) × Room) : Type 0 where
    pub keeps : IsKnown room → IsKnown r.1
    pub silent : IsKnown room → count is_x r.0 ≡ 0
    pub once : count is_x r.0 ≤ 1
    pub marks : (count is_x r.0 ≡ 0) ⊎ IsKnown r.1

  -- Nothing wakes, and the log grows.
  quiet :
      (live live' : Bool) (l l' : Log)
      → (live' ≡ true → live ≡ true)
      → Grows l l'
      → Moves (live, l) ([], (live', l'))
  quiet live live' l l' h g = record {
    keeps = λ n. record {
      filed = k.keep_filed l l' g x n.filed;
      known = λ t. k.grow l l' g x (n.known (h t));
    };
    silent = λ n. refl;
    once = omega arith;
    marks = inl refl;
  }

  -- What a step wakes was not known before it.
  none_new :
      (l l' : Log) (ws : List (String × String))
      → elem x (k.ids l) ≡ true
      → All (IsNew l l') ws
      → count is_x ws ≡ 0
  none_new l l' [] h n = refl
  none_new l l' (w ∷ ws) h n = elim (Bool-cases (k.key w == x)) [
    | inl same ↦ absurd (
        clash _ (k.new l l' w n.0)
          (subst (λ y. elem y (k.ids l) ≡ true) (sym ((==_iff (k.key w) x).0 same)) h))
    | inr other ↦ rw other (none_new l l' ws h n.1)
  ]

  -- What a step wakes is known after it.
  woken-IsKnown :
      (l l' : Log) (ws : List (String × String))
      → length ws ≤ 1
      → All (IsNew l l') ws
      → (count is_x ws ≤ 1) × ((count is_x ws ≡ 0) ⊎ IsKnown (true, l'))
  woken-IsKnown l l' [] short n = (omega arith, inl refl)
  woken-IsKnown l l' (w ∷ []) short n = elim (Bool-cases (k.key w == x)) [
    | inl same ↦
        let is_it = (==_iff (k.key w) x).0 same in
        rw same (
          omega arith,
          inr (record {
            filed =
                subst (λ y. elem y (k.filed l'.audit_file) ≡ true) is_it (k.new_filed l l' w n.0);
            known = λ t. subst (λ y. elem y (k.ids l') ≡ true) is_it (k.known l l' w n.0);
          }),
        )
    | inr other ↦ rw other (omega arith, inl refl)
  ]
  woken-IsKnown l l' (w ∷ v ∷ ws) short n = absurd (omega (arith, short))

  module _ (c : Settings) (sorted : List (String × String) → List (String × String))
      (self : Actor) where
    delivered-Moves :
        (d : ObserveCall) (l : Log) → Moves (true, l) (happen c sorted self (delivered d) (true, l))
    unfolding happen
    delivered-Moves d l =
        let s = observe-Step c d.answers d.delivery_id d.authorized_route d.payload l in
        let (o, l') = observe_delivery c d l in
        let (once, marks) = woken-IsKnown l l' (woken_of o) (woken_short o) s.fresh in
        record {
          keeps = λ n. record {
            filed = k.keep_filed l l' s.grows x n.filed;
            known = λ t. k.grow l l' s.grows x (n.known refl);
          };
          silent = λ n. none_new l l' (woken_of o) (n.known refl) s.fresh;
          once = once;
          marks = marks;
        }

    reopened-Moves :
        (r : Reopening) (live : Bool) (l : Log)
        → Moves (live, l) (opened c sorted self (reopen c sorted self r l) l)
    reopened-Moves r live l = of_log (reopen c sorted self r l) (reopen-IfSome c sorted self r l)
      where
        of_log :
            (o : Option Log)
            → IfSome (Restored l.audit_file) o
            → Moves (live, l) (opened c sorted self o l)
        of_log none h =
            quiet live false l l (λ t. absurd (false_is_not_true t)) (Grows-same l l refl refl refl)
        of_log (some l') h = record {
          keeps = λ n.
              let both = k.restored l.audit_file l' h x n.filed in
              record { filed = both.1; known = λ t. both.0 };
          silent = λ n. refl;
          once = omega arith;
          marks = inl refl;
        }

    happen-Moves : (h : Happening) (room : Room) → Moves room (happen c sorted self h room)
    unfolding happen
    happen-Moves (delivered d) (true, l) = delivered-Moves d l
    happen-Moves (gap_marked a delivery detail) (true, l) =
        quiet true true l _ (λ t. t) (mark_continuity_gap-Grows a delivery detail l)
    happen-Moves restarted (true, l) =
        quiet true true l (restart l) (λ t. t) (Grows-same l (restart l) refl refl refl)
    happen-Moves (reopened r) (live, l) = reopened-Moves r live l
    happen-Moves (delivered d) (false, l) =
        quiet false false l l (λ t. t) (Grows-same l l refl refl refl)
    happen-Moves (gap_marked a delivery detail) (false, l) =
        quiet false false l l (λ t. t) (Grows-same l l refl refl refl)
    happen-Moves restarted (false, l) =
        quiet false false l l (λ t. t) (Grows-same l l refl refl refl)

    -- A known delivery wakes no more.
    known_once :
        (room : Room) (hs : List Happening)
        → IsKnown room
        → count is_x (woken_in c sorted self room hs) ≡ 0
    unfolding woken_in
    known_once room [] n = refl
    known_once room (h ∷ hs) n =
        let m = happen-Moves h room in
        let (ws, room') = happen c sorted self h room in
        count_none is_x ws (woken_in c sorted self room' hs) (m.silent n)
          (known_once room' hs (m.keeps n))

    wakes_once :
        (room : Room) (hs : List Happening) → count is_x (woken_in c sorted self room hs) ≤ 1
    unfolding woken_in
    wakes_once room [] = omega arith
    wakes_once room (h ∷ hs) =
        let m = happen-Moves h room in
        let (ws, room') = happen c sorted self h room in
        let rest = woken_in c sorted self room' hs in
        elim m.marks [
          | inl first ↦ omega (arith, count-append is_x ws rest, first, wakes_once room' hs)
          | inr n ↦ omega (arith, count-append is_x ws rest, m.once, known_once room' hs n)
        ]

-- In any history of a room, with deliveries, gaps that the transport declares, ends of sessions and
-- new processes that open the log over the files of the last one, whatever the disk answers, whatever
-- lines the snapshot has and however often the transport delivers again, each delivery id and each
-- native event id is told to wake the participant at most once.
pub wake_once :
    (c : Settings) (sorted : List (String × String) → List (String × String)) (self : Actor)
    (room : Room) (hs : List Happening) (x : String)
    → (count (λ w. w.0 == x) (woken_in c sorted self room hs) ≤ 1)
      × (count (λ w. w.1 == x) (woken_in c sorted self room hs) ≤ 1)
unfolding delivery_kind event_kind
wake_once c sorted self room hs x = (
  wakes_once delivery_kind x c sorted self room hs,
  wakes_once event_kind x c sorted self room hs,
)
