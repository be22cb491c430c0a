-- ===== src/Winmm/Observer.antt =====
-- The poll of `observer_winmm` of rtmidi17/detail/winmm.hpp.
use rt_midi.Base.{
  ◌≡◌, refl, ap, ◌∙◌, ◌&&◌, ◌||◌, not, arith, if◌then◌else◌, Bool, true, false, Bool-cases, inl,
  inr, List, [], ◌∷◌, ◌++◌,
}
use rt_midi.Base.Names.{Name, same_name, same_name_eq, contains}

-- A call of one of the client's functions, with the name; the port number is always 0.
pub data Notification : Type 0 where
  added : Name → Notification
  removed : Name → Notification

-- The calls of the first loop, and of the second one.
unfoldable pub added_in : List Name → List Name → List Notification
added_in prev [] = []
added_in prev (name ∷ curr) =
    if not (contains prev name) then added name ∷ added_in prev curr else added_in prev curr

unfoldable pub removed_from : List Name → List Name → List Notification
removed_from curr [] = []
removed_from curr (name ∷ prev) =
    if not (contains curr name)
    then removed name ∷ removed_from curr prev
    else removed_from curr prev

-- By whether each function is there.
unfoldable pub compare_port_lists_and_notify_clients :
    Bool → Bool → List Name → List Name → List Notification
compare_port_lists_and_notify_clients has_added has_removed prev curr =
    (if has_added then added_in prev curr else [])
    ++ (if has_removed then removed_from curr prev else [])

-- The calls for the lists that `get_port_list` returns one after the other, for the inputs or for
-- the outputs, behind the list that the constructor has read.
unfoldable pub watch : Bool → Bool → List Name → List (List Name) → List Notification
unfolding compare_port_lists_and_notify_clients
watch has_added has_removed prev [] = []
watch has_added has_removed prev (curr ∷ later) =
    compare_port_lists_and_notify_clients has_added has_removed prev curr
    ++ watch has_added has_removed curr later

-- Whether a client that goes by the notifications takes a port of that name to be there.
abbrev pub known : List Notification → Name → Bool → Bool
known [] name b = b
known (added x ∷ ns) name b = known ns name (if same_name x name then true else b)
known (removed x ∷ ns) name b = known ns name (if same_name x name then false else b)

known-append :
    (ns ns' : List Notification) (name : Name) (b : Bool)
    → known (ns ++ ns') name b ≡ known ns' name (known ns name b)
known-append [] ns' name b = refl
known-append (added x ∷ ns) ns' name b =
    known-append ns ns' name (if same_name x name then true else b)
known-append (removed x ∷ ns) ns' name b =
    known-append ns ns' name (if same_name x name then false else b)

known-added_in :
    (prev curr : List Name) (name : Name) (b : Bool)
    → known (added_in prev curr) name b ≡ (b || (contains curr name && not (contains prev name)))
unfolding added_in
known-added_in prev [] name true = refl
known-added_in prev [] name false = refl
known-added_in prev (x ∷ curr) name b = elim (Bool-cases (same_name x name)) [
  | inl yes_ ↦
      let e = ap (contains prev) (same_name_eq x name yes_) in
      ground (arith, known-added_in prev curr name b, known-added_in prev curr name true, yes_, e)
  | inr no_ ↦ elim (Bool-cases (contains prev x)) [
    | inl known_ ↦ rw (known_, no_) (known-added_in prev curr name b)
    | inr new_ ↦ rw (new_, no_) (known-added_in prev curr name b)
  ]
]

known-removed_from :
    (curr prev : List Name) (name : Name) (b : Bool)
    → known (removed_from curr prev) name b
      ≡ (b && not (contains prev name && not (contains curr name)))
unfolding removed_from
known-removed_from curr [] name true = refl
known-removed_from curr [] name false = refl
known-removed_from curr (x ∷ prev) name b = elim (Bool-cases (same_name x name)) [
  | inl yes_ ↦
      let e = ap (contains curr) (same_name_eq x name yes_) in
      ground (
        arith,
        known-removed_from curr prev name b,
        known-removed_from curr prev name false,
        yes_,
        e,
      )
  | inr no_ ↦ elim (Bool-cases (contains curr x)) [
    | inl known_ ↦ rw (known_, no_) (known-removed_from curr prev name b)
    | inr gone_ ↦ rw (gone_, no_) (known-removed_from curr prev name b)
  ]
]

known-compare :
    (prev curr : List Name) (name : Name)
    → known (compare_port_lists_and_notify_clients true true prev curr) name (contains prev name)
      ≡ contains curr name
unfolding compare_port_lists_and_notify_clients
known-compare prev curr name =
    known-append (added_in prev curr) (removed_from curr prev) name (contains prev name)
    ∙ known-removed_from curr prev name (known (added_in prev curr) name (contains prev name))
    ∙ ap (λ b. b && not (contains prev name && not (contains curr name)))
        (known-added_in prev curr name (contains prev name))
    ∙ table (contains prev name) (contains curr name)
  where
    table : (p c : Bool) → ((p || (c && not p)) && not (p && not c)) ≡ c
    table true true = refl
    table true false = refl
    table false true = refl
    table false false = refl

abbrev pub latest : List Name → List (List Name) → List Name
latest prev [] = prev
latest prev (curr ∷ later) = latest curr later

-- A client with both functions, which goes by the notifications from the names of the first list
-- on, has after every poll the names of the list just read: it takes a port of some name to be
-- there if and only if one is.
pub watch-known :
    (prev : List Name) (lists : List (List Name)) (name : Name)
    → known (watch true true prev lists) name (contains prev name)
      ≡ contains (latest prev lists) name
unfolding watch
watch-known prev [] name = refl
watch-known prev (curr ∷ later) name =
    known-append (compare_port_lists_and_notify_clients true true prev curr)
      (watch true true curr later) name (contains prev name)
    ∙ ap (known (watch true true curr later) name) (known-compare prev curr name)
    ∙ watch-known curr later name
