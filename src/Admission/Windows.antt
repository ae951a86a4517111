-- ===== src/Admission/Windows.antt =====
-- Lemmas on one window of timestamps, and on the map of windows, for the refinement.
use canonical_api_server_rs.Prelude.{
  ℕ, ◌+◌, ◌≤◌, Bool, false, ◌≡◌, refl, sym, subst, ap, ◌≢◌, ◌∙◌, List, [], ◌∷◌, ◌++◌, none, inl,
  inr, if◌then◌else◌, filter, count, count-append, length, length-append, Bool-cases, Text, text_eq,
  text_eq_iff, lookup, lookup-insert, insert, All, All-append, arith,
}
use canonical_api_server_rs.Admission.{
  is_expired, discard_expired, keep_entry, retain_live, subject_eq, stamps_of,
}
use canonical_api_server_rs.Admission.Ledger.{live}

-- Oldest first
abbrev pub IsSorted : List ℕ → Type 0
IsSorted [] = Unit
IsSorted (t ∷ ts) = All (λ u. t ≤ u) ts × IsSorted ts

pub All-mono : (m n : ℕ) (ts : List ℕ) → m ≤ n → All (λ u. u ≤ m) ts → All (λ u. u ≤ n) ts
All-mono m n [] h a = tt
All-mono m n (t ∷ ts) h a = (omega arith, All-mono m n ts h a.1)

All-live : (P : ℕ → Type 0) (now : ℕ) (ts : List ℕ) → All P ts → All P (live now ts)
All-live P now [] a = tt
All-live P now (t ∷ ts) a = elim (Bool-cases (is_expired now t)) [
  | inl e ↦ rw e (All-live P now ts a.1)
  | inr e ↦ rw e (a.0, All-live P now ts a.1)
]

pub live-IsSorted : (now : ℕ) (ts : List ℕ) → IsSorted ts → IsSorted (live now ts)
live-IsSorted now [] h = tt
live-IsSorted now (t ∷ ts) h = elim (Bool-cases (is_expired now t)) [
  | inl e ↦ rw e (live-IsSorted now ts h.1)
  | inr e ↦ rw e (All-live (λ u. t ≤ u) now ts h.0, live-IsSorted now ts h.1)
]

pub IsSorted-append :
    (ts : List ℕ) (now : ℕ) → IsSorted ts → All (λ u. u ≤ now) ts → IsSorted (ts ++ now ∷ [])
IsSorted-append [] now h a = (tt, tt)
IsSorted-append (t ∷ ts) now h a =
    (All-append (λ u. t ≤ u) ts (now ∷ []) h.0 (a.0, tt), IsSorted-append ts now h.1 a.1)

-- Behind a timestamp that is live, all are.
live-eq_self :
    (now t : ℕ) (ts : List ℕ) → is_expired now t ≡ false → All (λ u. t ≤ u) ts → live now ts ≡ ts
live-eq_self now t [] e a = refl
live-eq_self now t (u ∷ ts) e a = ground (arith, live-eq_self now t ts e a.1)

-- On a sorted window popping the expired front discards exactly the expired timestamps.
pub discard_expired-eq-live :
    (now : ℕ) (ts : List ℕ) → IsSorted ts → discard_expired now ts ≡ live now ts
unfolding discard_expired
discard_expired-eq-live now [] h = refl
discard_expired-eq-live now (t ∷ ts) h = elim (Bool-cases (is_expired now t)) [
  | inl e ↦ rw e (discard_expired-eq-live now ts h.1)
  | inr e ↦ rw e (ap (◌∷◌ t) (sym (live-eq_self now t ts e h.0)))
]

-- What has expired stays expired.
pub live-live :
    (now later : ℕ) (ts : List ℕ) → now ≤ later → live later (live now ts) ≡ live later ts
live-live now later [] h = refl
live-live now later (t ∷ ts) h = ground (arith, live-live now later ts h)

pub live-append_now : (now : ℕ) (ts : List ℕ) → live now (ts ++ now ∷ []) ≡ live now ts ++ now ∷ []
live-append_now now [] = ground arith
live-append_now now (t ∷ ts) = ground (arith, live-append_now now ts)

-- The windows of the map, one after another
abbrev pub stamps : List (Text × List ℕ) → List ℕ
stamps [] = []
stamps ((s, ts) ∷ m) = ts ++ stamps m

abbrev pub IsDistinct : List (Text × List ℕ) → Type 0
IsDistinct [] = Unit
IsDistinct ((s, ts) ∷ m) = (lookup subject_eq s m ≡ none) × IsDistinct m

-- A window of the map: not empty, sorted, and not younger than `now`
pub record IsWindow (now : ℕ) (ts : List ℕ) : Type 0 where
  pub nonempty : ts ≢ []
  pub sorted : IsSorted ts
  pub past : All (λ u. u ≤ now) ts

abbrev pub AreWindows : ℕ → List (Text × List ℕ) → Type 0
AreWindows now [] = Unit
AreWindows now ((s, ts) ∷ m) = IsWindow now ts × AreWindows now m

pub length-le-stamps :
    (now : ℕ) (m : List (Text × List ℕ)) → AreWindows now m → length m ≤ length (stamps m)
length-le-stamps now [] h = omega arith
length-le-stamps now ((s, []) ∷ m) h = absurd (h.0.nonempty refl)
length-le-stamps now ((s, t ∷ ts) ∷ m) h =
    omega (arith, length-append ts (stamps m), length-le-stamps now m h.1)

-- What the `retain` over the map does.
pub retain_live-lookup_none :
    (now : ℕ) (s : Text) (m : List (Text × List ℕ))
    → lookup subject_eq s m ≡ none
    → lookup subject_eq s (retain_live now m) ≡ none
unfolding retain_live
retain_live-lookup_none now s [] h = refl
retain_live-lookup_none now s ((j, ts) ∷ m) h = ground (arith, retain_live-lookup_none now s m)

pub retain_live-IsDistinct :
    (now : ℕ) (m : List (Text × List ℕ)) → IsDistinct m → IsDistinct (retain_live now m)
unfolding retain_live
retain_live-IsDistinct now [] h = tt
retain_live-IsDistinct now ((j, ts) ∷ m) h =
    ground (arith, retain_live-lookup_none now j m, retain_live-IsDistinct now m)

live-IsWindow :
    (now later t : ℕ) (ts : List ℕ) (ws : List ℕ)
    → now ≤ later
    → IsWindow now ws
    → live later ws ≡ t ∷ ts
    → IsWindow later (t ∷ ts)
live-IsWindow now later t ts ws h w e = record {
  nonempty = λ e'. cc;
  sorted = subst IsSorted e (live-IsSorted later ws w.sorted);
  past =
      subst (All (λ u. u ≤ later)) e
        (All-live (λ u. u ≤ later) later ws (All-mono now later ws h w.past));
}

keep_entry-AreWindows :
    (now later : ℕ) (j : Text) (ws kept : List ℕ) (m : List (Text × List ℕ))
    → now ≤ later
    → IsWindow now ws
    → live later ws ≡ kept
    → AreWindows later m
    → AreWindows later (keep_entry j kept m)
unfolding keep_entry
keep_entry-AreWindows now later j ws [] m h w e a = a
keep_entry-AreWindows now later j ws (t ∷ ts) m h w e a = (live-IsWindow now later t ts ws h w e, a)

pub retain_live-AreWindows :
    (now later : ℕ) (m : List (Text × List ℕ))
    → now ≤ later
    → AreWindows now m
    → AreWindows later (retain_live later m)
unfolding retain_live
retain_live-AreWindows now later [] h a = tt
retain_live-AreWindows now later ((j, ts) ∷ m) h a =
    keep_entry-AreWindows now later j ts (discard_expired later ts) (retain_live later m) h a.0
      (sym (discard_expired-eq-live later ts a.0.sorted)) (retain_live-AreWindows now later m h a.1)

keep_entry-stamps :
    (j : Text) (kept : List ℕ) (m : List (Text × List ℕ))
    → stamps (keep_entry j kept m) ≡ kept ++ stamps m
unfolding keep_entry
keep_entry-stamps j [] m = refl
keep_entry-stamps j (t ∷ ts) m = refl

filter-append' : (p : ℕ → Bool) (xs ys : List ℕ) → filter p (xs ++ ys) ≡ filter p xs ++ filter p ys
filter-append' p [] ys = refl
filter-append' p (x ∷ xs) ys = ground (arith, filter-append' p xs ys)

-- The timestamps that are left are those that are live.
pub stamps-retain_live :
    (now later : ℕ) (m : List (Text × List ℕ))
    → AreWindows now m
    → stamps (retain_live later m) ≡ live later (stamps m)
unfolding retain_live
stamps-retain_live now later [] a = refl
stamps-retain_live now later ((j, ts) ∷ m) a =
    rw
      (
        keep_entry-stamps j (discard_expired later ts) (retain_live later m),
        discard_expired-eq-live later ts a.0.sorted,
        stamps-retain_live now later m a.1,
      )
      (sym (filter-append' _ ts (stamps m)))

keep_entry-stamps_of :
    (s j : Text) (kept : List ℕ) (m : List (Text × List ℕ))
    → lookup subject_eq j m ≡ none
    → stamps_of s (keep_entry j kept m) ≡ (if text_eq j s then kept else stamps_of s m)
unfolding keep_entry
keep_entry-stamps_of s j [] m h = ground (arith, text_eq_iff j s)
keep_entry-stamps_of s j (t ∷ ts) m h = ground arith

pub stamps_of-retain_live :
    (now later : ℕ) (s : Text) (m : List (Text × List ℕ))
    → IsDistinct m
    → AreWindows now m
    → stamps_of s (retain_live later m) ≡ live later (stamps_of s m)
unfolding retain_live
stamps_of-retain_live now later s [] d a = refl
stamps_of-retain_live now later s ((j, ts) ∷ m) d a =
    keep_entry-stamps_of s j (discard_expired later ts) (retain_live later m)
      (retain_live-lookup_none later j m d.0)
    ∙ ground (
      arith,
      discard_expired-eq-live later ts a.0.sorted,
      stamps_of-retain_live now later s m d.1 a.1,
    )

-- What recording a submission does to the map.
pub insert-IsDistinct :
    (s : Text) (ts : List ℕ) (m : List (Text × List ℕ))
    → IsDistinct m
    → IsDistinct (insert subject_eq s ts m)
insert-IsDistinct s ts [] d = (refl, tt)
insert-IsDistinct s ts ((j, us) ∷ m) d = elim (Bool-cases (text_eq j s)) [
  | inl e ↦ rw e d
  | inr e ↦ rw e (
    lookup-insert subject_eq s j ts m ∙ ground (arith, text_eq_iff j s, text_eq_iff s j, d.0),
    insert-IsDistinct s ts m d.1,
  )
]

pub insert-AreWindows :
    (now : ℕ) (s : Text) (ts : List ℕ) (m : List (Text × List ℕ))
    → IsWindow now ts
    → AreWindows now m
    → AreWindows now (insert subject_eq s ts m)
insert-AreWindows now s ts [] w a = (w, tt)
insert-AreWindows now s ts ((j, us) ∷ m) w a = elim (Bool-cases (text_eq j s)) [
  | inl e ↦ rw e (w, a.1)
  | inr e ↦ rw e (a.0, insert-AreWindows now s ts m w a.1)
]

count-stamps-insert :
    (p : ℕ → Bool) (s : Text) (ts : List ℕ) (m : List (Text × List ℕ))
    → count p (stamps (insert subject_eq s ts m)) + count p (stamps_of s m)
      ≡ count p (stamps m) + count p ts
count-stamps-insert p s ts [] = omega (arith, count-append p ts [])
count-stamps-insert p s ts ((j, us) ∷ m) = elim (Bool-cases (text_eq j s)) [
  | inl e ↦ rw e (omega (arith, count-append p ts (stamps m), count-append p us (stamps m)))
  | inr e ↦ rw e (
      omega (
        arith,
        count-append p us (stamps (insert subject_eq s ts m)),
        count-append p us (stamps m),
        count-stamps-insert p s ts m,
      ))
]

-- One more timestamp in a subject's window, whatever is counted.
pub count-stamps-insert_now :
    (p : ℕ → Bool) (now : ℕ) (s : Text) (m : List (Text × List ℕ))
    → count p (stamps (insert subject_eq s (stamps_of s m ++ now ∷ []) m))
      ≡ count p (stamps m) + count p (now ∷ [])
count-stamps-insert_now p now s m = omega (
  arith,
  count-stamps-insert p s (stamps_of s m ++ now ∷ []) m,
  count-append p (stamps_of s m) (now ∷ []),
)

stamps_of-IsSorted :
    (now : ℕ) (s : Text) (m : List (Text × List ℕ))
    → AreWindows now m
    → IsSorted (stamps_of s m) × All (λ u. u ≤ now) (stamps_of s m)
stamps_of-IsSorted now s [] a = (tt, tt)
stamps_of-IsSorted now s ((j, us) ∷ m) a = elim (Bool-cases (text_eq j s)) [
  | inl e ↦ rw e (a.0.sorted, a.0.past)
  | inr e ↦ rw e (stamps_of-IsSorted now s m a.1)
]

append-ne-nil : (ts : List ℕ) (t : ℕ) → ts ++ t ∷ [] ≢ []
append-ne-nil [] t e = cc
append-ne-nil (u ∷ ts) t e = cc

-- A subject's window after one more submission
pub recorded-IsWindow :
    (now : ℕ) (s : Text) (m : List (Text × List ℕ))
    → AreWindows now m
    → IsWindow now (stamps_of s m ++ now ∷ [])
recorded-IsWindow now s m a =
    let (sorted, past) = stamps_of-IsSorted now s m a in
    record {
      nonempty = append-ne-nil (stamps_of s m) now;
      sorted = IsSorted-append (stamps_of s m) now sorted past;
      past = All-append (λ u. u ≤ now) (stamps_of s m) (now ∷ []) past (omega arith, tt);
    }
