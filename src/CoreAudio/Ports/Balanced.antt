-- ===== src/CoreAudio/Ports/Balanced.antt =====
-- The ports and the client of the objects of rtmidi17/detail/coreaudio.hpp, from call to call.
use rt_midi.Base.{
  ℕ, suc, ◌+◌, ◌-◌, ◌≤◌, ◌≡◌, refl, sym, ap, ◌∙◌, arith, ltb, ◌&&◌, not, if_elim, if◌then◌else◌,
  Bool, Bool-cases, inl, inr, true, false, List, [], ◌∷◌, String,
}
use rt_midi.Api.{ErrorType}
use rt_midi.MidiApi.{Effect, error}
use rt_midi.MidiApi.Connection.{error-connected, warning-connected}
use rt_midi.CoreAudio.Ports.{
  Side, input, output, Answers, CorePorts, reported, dispose, with_port, without_port, open_in,
  open_out, open_virtual_in, open_virtual_out, close_endpoint, close_port, Action, opens,
  opens_virtual, closes, act, act_all,
}

abbrev pub succeeds : Answers → Bool
succeeds a = a.creates && (a.finds && a.connects)

-- The openings for which a call of the system that they may make fails.
abbrev pub failures : List Action → ℕ
failures [] = 0
failures (opens a n ∷ xs) = if succeeds a then failures xs else suc (failures xs)
failures (opens_virtual b ∷ xs) = failures xs
failures (closes ∷ xs) = failures xs

-- Connected to its port if there is one, and at most so many disposals.
pub record IsBalanced (n : ℕ) (p : CorePorts) : Type 0 where
  pub same : p.has_port ≡ p.api.connected
  pub ports : p.live_ports ≡ (if p.has_port then 1 else 0)
  pub few : p.disposed ≤ n

module _ (a : Answers) (port : ℕ) (n : ℕ) (p : CorePorts) (k : IsBalanced n p) where
  abbrev allowed : ℕ
  allowed = if succeeds a then n else suc n

  few_allowed : p.disposed ≤ allowed
  few_allowed = ground (arith, k.few)

  abbrev Result : CorePorts × Effect → Type 0
  Result r = IsBalanced allowed r.0

  reports_error : (e : ErrorType) (text : String) → Result (reported (error e text p.api) p)
  reports_error e text = record {
    same = k.same ∙ sym (error-connected e text p.api);
    ports = k.ports;
    few = few_allowed;
  }

  reports_failure :
      (e : ErrorType) (text : String)
      → succeeds a ≡ false
      → Result (reported (error e text p.api) (dispose p))
  reports_failure e text fails = record {
    same = k.same ∙ sym (error-connected e text p.api);
    ports = k.ports;
    few = ground (arith, k.few, fails);
  }

  reports_undone :
      (e : ErrorType) (text : String)
      → succeeds a ≡ false
      → Result (reported (error e text p.api) (dispose (without_port (with_port p))))
  reports_undone e text fails =
      let f = reports_failure e text fails in
      record { same = f.same; ports = omega (arith, k.ports); few = f.few }

  opened :
      p.api.connected ≡ false
      → Result (
        record p {
          api = record p.api { connected = true };
          has_port = true;
          live_ports = p.live_ports + 1;
        },
        Effect.ignored,
      )
  opened closed = record {
    same = refl;
    ports = ap (λ (n : ℕ). n + 1) (k.ports ∙ ap (λ b. if b then 1 else 0) (k.same ∙ closed));
    few = few_allowed;
  }

  open_out-IsBalanced : Result (open_out a port p)
  unfolding open_out
  open_out-IsBalanced =
      if_elim Result p.api.connected _ _
        (λ busy. record {
          same = k.same ∙ sym (warning-connected _ p.api);
          ports = k.ports;
          few = few_allowed;
        })
        (λ closed.
          if_elim Result (ltb a.ends 1) _ _ (λ none_. reports_error _ _)
            (λ some_.
              if_elim Result (not (ltb port a.ends)) _ _ (λ outside. reports_error _ _)
                (λ inside.
                  if_elim Result (not a.creates) _ _
                    (λ fails. reports_failure _ _ (ground (arith, fails)))
                    (λ created.
                      if_elim Result (not a.finds) _ _
                        (λ fails. reports_undone _ _ (ground (arith, fails)))
                        (λ found. opened closed)))))

  open_in-IsBalanced : Result (open_in a port p)
  unfolding open_in
  open_in-IsBalanced =
      if_elim Result p.api.connected _ _
        (λ busy. record {
          same = k.same ∙ sym (warning-connected _ p.api);
          ports = k.ports;
          few = few_allowed;
        })
        (λ closed.
          if_elim Result (ltb a.ends 1) _ _ (λ none_. reports_error _ _)
            (λ some_.
              if_elim Result (not (ltb port a.ends)) _ _ (λ outside. reports_error _ _)
                (λ inside.
                  if_elim Result (not a.creates) _ _
                    (λ fails. reports_failure _ _ (ground (arith, fails)))
                    (λ created.
                      if_elim Result (not a.finds) _ _
                        (λ fails. reports_undone _ _ (ground (arith, fails)))
                        (λ found.
                          if_elim Result (not a.connects) _ _
                            (λ fails. reports_undone _ _ (ground (arith, fails)))
                            (λ joined. opened closed))))))

module _ (n : ℕ) (p : CorePorts) (k : IsBalanced n p) where
  abbrev Kept : CorePorts × Effect → Type 0
  Kept r = IsBalanced n r.0

  keeps_error : (e : ErrorType) (text : String) → Kept (reported (error e text p.api) p)
  keeps_error e text = record {
    same = k.same ∙ sym (error-connected e text p.api);
    ports = k.ports;
    few = k.few;
  }

  made : Kept (record p { endpoint = true; live_endpoints = p.live_endpoints + 1 }, Effect.ignored)
  made = record { same = k.same; ports = k.ports; few = k.few }

  open_virtual_in-IsBalanced : (b : Bool) → Kept (open_virtual_in b p)
  unfolding open_virtual_in
  open_virtual_in-IsBalanced b =
      if_elim Kept (not b) _ _ (λ fails. keeps_error _ _) (λ created. made)

  open_virtual_out-IsBalanced : (b : Bool) → Kept (open_virtual_out b p)
  unfolding open_virtual_out
  open_virtual_out-IsBalanced b =
      if_elim Kept p.endpoint _ _
        (λ there. record {
          same = k.same ∙ sym (warning-connected _ p.api);
          ports = k.ports;
          few = k.few;
        })
        (λ none_. if_elim Kept (not b) _ _ (λ fails. keeps_error _ _) (λ created. made))

  close_endpoint-IsBalanced : IsBalanced n (close_endpoint p)
  close_endpoint-IsBalanced =
      if_elim (IsBalanced n) p.endpoint _ _
        (λ there. record { same = k.same; ports = k.ports; few = k.few }) (λ none_. k)

-- Behind the first `if` of `close_port`.
abbrev close_rest : CorePorts → CorePorts
close_rest q =
    let r =
      if q.has_port then record q { has_port = false; live_ports = q.live_ports - 1 } else q in
    record r { api = record r.api { connected = false } }

close_rest-IsBalanced : (n : ℕ) (q : CorePorts) → IsBalanced n q → IsBalanced n (close_rest q)
close_rest-IsBalanced n q k =
    if_elim
      (λ (r : CorePorts). IsBalanced n (record r { api = record r.api { connected = false } }))
      q.has_port _ _
      (λ there. record {
        same = refl;
        ports = ap (λ (n : ℕ). n - 1) (k.ports ∙ ap (λ b. if b then 1 else 0) there);
        few = k.few;
      })
      (λ none_. record { same = none_; ports = k.ports; few = k.few })

pub close_port-IsBalanced : (n : ℕ) (p : CorePorts) → IsBalanced n p → IsBalanced n (close_port p)
unfolding close_port
close_port-IsBalanced n p k =
    close_rest-IsBalanced n (close_endpoint p) (close_endpoint-IsBalanced n p k)

relax : (m n : ℕ) (p : CorePorts) → m ≤ n → IsBalanced m p → IsBalanced n p
relax m n p h k = record { same = k.same; ports = k.ports; few = omega (arith, h, k.few) }

allowed_total : (b : Bool) (n : ℕ) → (if b then n else suc n) ≤ n + (if b then 0 else 1)
allowed_total true n = omega arith
allowed_total false n = omega arith

act-IsBalanced :
    (side : Side) (x : Action) (n : ℕ) (p : CorePorts)
    → IsBalanced n p
    → IsBalanced (n + failures (x ∷ [])) (act side x p)
unfolding act
act-IsBalanced input (opens a port) n p k =
    relax _ _ (open_in a port p).0 (allowed_total (succeeds a) n) (open_in-IsBalanced a port n p k)
act-IsBalanced output (opens a port) n p k =
    relax _ _ (open_out a port p).0 (allowed_total (succeeds a) n)
      (open_out-IsBalanced a port n p k)
act-IsBalanced input (opens_virtual b) n p k =
    relax n _ (open_virtual_in b p).0 (omega arith) (open_virtual_in-IsBalanced n p k b)
act-IsBalanced output (opens_virtual b) n p k =
    relax n _ (open_virtual_out b p).0 (omega arith) (open_virtual_out-IsBalanced n p k b)
act-IsBalanced input closes n p k =
    relax n _ (close_port p) (omega arith) (close_port-IsBalanced n p k)
act-IsBalanced output closes n p k =
    relax n _ (close_port p) (omega arith) (close_port-IsBalanced n p k)

failures_cons :
    (x : Action) (xs : List Action) → failures (x ∷ xs) ≡ failures (x ∷ []) + failures xs
failures_cons (opens a port) xs = elim (Bool-cases (succeeds a)) [
  | inl e ↦ ground (arith, e)
  | inr e ↦ ground (arith, e)
]
failures_cons (opens_virtual b) xs = omega arith
failures_cons closes xs = omega arith

pub act_all-IsBalanced :
    (side : Side) (xs : List Action) (n : ℕ) (p : CorePorts)
    → IsBalanced n p
    → IsBalanced (n + failures xs) (act_all side xs p)
unfolding act_all
act_all-IsBalanced side [] n p k = relax n (n + 0) p (omega arith) k
act_all-IsBalanced side (x ∷ xs) n p k =
    let later =
      act_all-IsBalanced side xs (n + failures (x ∷ [])) (act side x p)
        (act-IsBalanced side x n p k) in
    relax _ _ (act_all side xs (act side x p)) (omega (arith, failures_cons x xs)) later
