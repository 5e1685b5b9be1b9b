-- ===== src/MainLoop/Pointers.antt =====
-- Which pointers lead to a monitor.
use open_vrrp.Prelude.{
  ℕ, ltb, ◌==◌, ==_iff, if◌then◌else◌, Bool, true, false, List, [], ◌∷◌, Option, none, some, ◌≡◌,
  ◌≢◌, ◌⊎◌, refl, sym, ap, ◌∙◌, arith, Option-cases, inl, inr,
}
use open_vrrp.Containers.{map_find, map_set, map_erase}
use open_vrrp.Containers.Nested.{find-set, find-erase}
use open_vrrp.MainLoop.{Monitor, MainLoop, add_monitor, remove_monitor}

-- A descriptor of the table has a monitor that is not deleted, and that names it.
pub record IsLive (l : MainLoop) (fd address : ℕ) : Type 0 where
  pub monitor : Monitor
  pub there : map_find ltb address l.heap ≡ some monitor
  pub named : monitor.fd ≡ fd

-- Every pointer of the table leads to such a monitor.
abbrev pub IsConsistent : MainLoop → Type 0
IsConsistent l = (fd address : ℕ) → map_find ltb fd l.monitors ≡ some address → IsLive l fd address

not_same : (a b : ℕ) → a ≢ b → (a == b) ≡ false
not_same a b h = ground arith

same : (a : ℕ) → (a == a) ≡ true
same a = ground arith

apart :
    (l : MainLoop) (fd fd' a a' : ℕ)
    → IsLive l fd a
    → IsLive l fd' a'
    → (fd == fd') ≡ false
    → (a == a') ≡ false
apart l fd fd' a a' x y e =
    not_same a a' λ same. absurd (ground (arith, x.there, y.there, x.named, y.named))

not_erased :
    (b : Bool) (o : Option ℕ) (a : ℕ)
    → (if b then none else o) ≡ some a
    → (b ≡ false) × (o ≡ some a)
not_erased true o a e = cc
not_erased false o a e = (refl, e)

module _ (fd : ℕ) (l : MainLoop) (ok : IsConsistent l) where
  removed :
      (address : ℕ)
      → map_find ltb fd l.monitors ≡ some address
      → IsConsistent
          (record l { monitors = map_erase ltb fd l.monitors; heap = map_erase ltb address l.heap })
  removed address e fd' a' found =
      let (differ, before) =
        not_erased (fd' == fd) (map_find ltb fd' l.monitors) a'
          (sym (find-erase fd' fd l.monitors) ∙ found) in
      let live : IsLive l fd' a' = ok fd' a' before in
      let other = apart l fd' fd a' address live (ok fd address e) differ in
      record {
        monitor = live.monitor;
        there =
            find-erase a' address l.heap
            ∙ ap (λ (b : Bool). if b then none else map_find ltb a' l.heap) other
            ∙ live.there;
        named = live.named;
      }

  pub remove_monitor-IsConsistent : IsConsistent (remove_monitor fd l).1
  unfolding remove_monitor
  remove_monitor-IsConsistent = elim (Option-cases (map_find ltb fd l.monitors)) [
    | inl e ↦ rw (e, remove_monitor) ok
    | inr (address, e) ↦ rw (e, remove_monitor) (removed address e)
  ]

found_or_kept :
    (b : Bool) (o : Option ℕ) (a a' : ℕ)
    → (if b then some a else o) ≡ some a'
    → ((b ≡ true) × (a' ≡ a)) ⊎ ((b ≡ false) × (o ≡ some a'))
found_or_kept true o a a' e = inl (refl, cc)
found_or_kept false o a a' e = inr (refl, e)

if_same :
    (b : Bool) (o o' : Option Monitor) (m : Monitor)
    → b ≡ false
    → o ≡ some m
    → (if b then o' else o) ≡ some m
if_same true o o' m e f = cc
if_same false o o' m e f = f

module _ (address fd callback : ℕ) (l : MainLoop) (ok : IsConsistent l)
    (fresh : map_find ltb address l.heap ≡ none) where
  abbrev made : Monitor
  made = record { callback = callback; fd = fd }

  abbrev larger : List (ℕ × Monitor)
  larger = map_set ltb address made l.heap

  -- A live monitor is not the new one, which the heap did not have.
  not_new : (fd' a' : ℕ) → IsLive l fd' a' → (a' == address) ≡ false
  not_new fd' a' x = not_same a' address λ e. absurd (ground (arith, x.there, fresh))

  still_there : (fd' a' : ℕ) (x : IsLive l fd' a') → map_find ltb a' larger ≡ some x.monitor
  still_there fd' a' x =
      find-set a' address made l.heap
      ∙ if_same (a' == address) _ _ x.monitor (not_new fd' a' x) x.there

  new_there : map_find ltb address larger ≡ some made
  new_there =
      find-set address address made l.heap
      ∙ ap (λ (b : Bool). if b then some made else map_find ltb address l.heap) (same address)

  added : IsConsistent (record l { monitors = map_set ltb fd address l.monitors; heap = larger })
  added fd' a' found =
      elim (found_or_kept (fd' == fd) (map_find ltb fd' l.monitors) address a'
        (sym (find-set fd' fd address l.monitors) ∙ found)) [
          | inl (e, f) ↦ record {
            monitor = made;
            there = ap (λ (k : ℕ). map_find ltb k larger) f ∙ new_there;
            named = sym ((==_iff fd' fd).0 e);
          }
          | inr (e, f) ↦
              let x = ok fd' a' f in
              record { monitor = x.monitor; there = still_there fd' a' x; named = x.named }
        ]

  is_other :
      (old fd' a' : ℕ)
      → map_find ltb fd l.monitors ≡ some old
      → map_find ltb fd' (map_set ltb fd address l.monitors) ≡ some a'
      → (a' == old) ≡ false
  is_other old fd' a' e found =
      elim (found_or_kept (fd' == fd) (map_find ltb fd' l.monitors) address a'
        (sym (find-set fd' fd address l.monitors) ∙ found)) [
          | inl (g, f) ↦ let differ = not_new fd old (ok fd old e) in ground (arith, f, differ)
          | inr (g, f) ↦ apart l fd' fd a' old (ok fd' a' f) (ok fd old e) g
        ]

  replaced :
      (old : ℕ)
      → map_find ltb fd l.monitors ≡ some old
      → IsConsistent (record l {
        monitors = map_set ltb fd address l.monitors;
        heap = map_erase ltb old larger;
      })
  replaced old e fd' a' found =
      let x = added fd' a' found in
      record {
        monitor = x.monitor;
        there =
            find-erase a' old larger
            ∙ if_same (a' == old) _ _ x.monitor (is_other old fd' a' e found) x.there;
        named = x.named;
      }

  accepted-IsConsistent : IsConsistent (add_monitor true address fd callback l).1
  unfolding add_monitor
  accepted-IsConsistent = elim (Option-cases (map_find ltb fd l.monitors)) [
    | inl e ↦ rw (e, add_monitor) added
    | inr (old, e) ↦ rw (e, add_monitor) (replaced old e)
  ]

  pub add_monitor-IsConsistent :
      (accepted : Bool) → IsConsistent (add_monitor accepted address fd callback l).1
  unfolding add_monitor
  add_monitor-IsConsistent true = accepted-IsConsistent
  add_monitor-IsConsistent false = ok

-- The calls of the parts of the program: an addition with the answer of epoll_ctl, the address that
-- `new` gives, the descriptor and the callback, and a removal.
pub data Operation : Type 0 where
  adds : Bool → ℕ → ℕ → ℕ → Operation
  removes : ℕ → Operation

abbrev pub perform : Operation → MainLoop → MainLoop
perform (adds accepted address fd callback) l = (add_monitor accepted address fd callback l).1
perform (removes fd) l = (remove_monitor fd l).1

abbrev pub perform_all : List Operation → MainLoop → MainLoop
perform_all [] l = l
perform_all (o ∷ os) l = perform_all os (perform o l)

-- `new` gives no address that is in use.
abbrev pub IsFresh : Operation → MainLoop → Type 0
IsFresh (adds accepted address fd callback) l = map_find ltb address l.heap ≡ none
IsFresh (removes fd) l = Unit

abbrev pub AreFresh : List Operation → MainLoop → Type 0
AreFresh [] l = Unit
AreFresh (o ∷ os) l = IsFresh o l × AreFresh os (perform o l)

perform-IsConsistent :
    (o : Operation) (l : MainLoop) → IsFresh o l → IsConsistent l → IsConsistent (perform o l)
perform-IsConsistent (adds accepted address fd callback) l fresh ok =
    add_monitor-IsConsistent address fd callback l ok fresh accepted
perform-IsConsistent (removes fd) l fresh ok = remove_monitor-IsConsistent fd l ok

all-IsConsistent :
    (os : List Operation) (l : MainLoop)
    → AreFresh os l
    → IsConsistent l
    → IsConsistent (perform_all os l)
all-IsConsistent [] l fresh ok = ok
all-IsConsistent (o ∷ os) l (f, fresh) ok =
    all-IsConsistent os (perform o l) fresh (perform-IsConsistent o l f ok)

abbrev pub empty_loop : MainLoop
empty_loop = record { monitors = []; heap = []; aborted = false }

empty-IsConsistent : IsConsistent empty_loop
unfolding map_find
empty-IsConsistent fd a found = cc

-- After any additions, at addresses that are not in use, and removals, from an empty table on, each
-- pointer of the table leads to a monitor that is not deleted and that has its descriptor.
pub perform_all-IsLive :
    (os : List Operation) (fd address : ℕ)
    → AreFresh os empty_loop
    → map_find ltb fd (perform_all os empty_loop).monitors ≡ some address
    → IsLive (perform_all os empty_loop) fd address
perform_all-IsLive os fd address fresh found =
    all-IsConsistent os empty_loop fresh empty-IsConsistent fd address found
