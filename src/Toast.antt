-- ===== src/Toast.antt =====
-- web/src/lib/toast-store.ts: the list of toasts, its counter, and the timers that it sets. A
-- timer may fire in any order after it is set; what it then does is the source's callback.
pub mod Distinct
pub mod Covered
pub mod Shown
pub mod Invariant
pub mod Lookup
pub mod Created
mod Witnesses
use subdux.Base.{
  Bool, List, Option, String, [], any, false, if◌then◌else◌, ltb, map, none, some, str_eq, suc,
  true, zero, ℕ, ◌&&◌, ◌++◌, ◌+◌, ◌==◌, ◌∷◌,
}

-- `string | number`, compared by `===`.
pub data ToastId : Type 0 where
  text : String → ToastId
  number : ℕ → ToastId

unfoldable pub id_eq : ToastId → ToastId → Bool
id_eq (text s) (text t) = str_eq s t
id_eq (number m) (number n) = m == n
id_eq _ _ = false

pub data ToastType : Type 0 where
  default success error info warning loading : ToastType

pub record ToastClassNames : Type 0 where
  pub toast : Option String
  pub description : Option String
  pub action_button : Option String
  pub cancel_button : Option String

pub record ToastOptions : Type 0 where
  pub id : Option ToastId
  pub description : Option String
  pub duration : Option ℕ
  pub dismissible : Option Bool
  pub class_name : Option String
  pub class_names : Option ToastClassNames

pub record ToastRecord : Type 0 where
  pub id : ToastId
  pub title : String
  pub type : ToastType
  pub description : Option String
  pub duration : Option ℕ
  pub dismissible : Bool
  pub class_name : Option String
  pub class_names : Option ToastClassNames
  pub visible : Bool

abbrev pub default_duration : ℕ
default_duration = 4000

abbrev pub exit_duration_ms : ℕ
exit_duration_ms = 180

-- The callbacks that are handed to `setTimeout`, with their delays.
pub data Timer : Type 0 where
  dismiss_later : ℕ → ToastId → Timer
  remove_later : ℕ → List ToastId → Timer

-- The module's variables, the pending timers, and the listeners that were called, in order.
pub record ToastState : Type 0 where
  pub toast_counter : ℕ
  pub toasts : List ToastRecord
  pub timers : List Timer
  pub listeners : List ℕ
  pub called : List ℕ

unfoldable pub initial : ToastState
initial = record { toast_counter = 0; toasts = []; timers = []; listeners = []; called = [] }

abbrev pub emit_change : ToastState → ToastState
emit_change s = record s { called = s.called ++ s.listeners }

-- `listeners.add(listener)`, and the function that it returns. A listener is the number of its
-- function, and a set keeps it once.
unfoldable pub subscribe : ℕ → ToastState → ToastState
subscribe listener s = record s {
  listeners =
      if any (λ l. l == listener) s.listeners then s.listeners else s.listeners ++ listener ∷ [];
}

unfoldable pub without_listener : ℕ → List ℕ → List ℕ
without_listener listener [] = []
without_listener listener (l ∷ ls) =
    let rest = without_listener listener ls in if l == listener then rest else l ∷ rest

unfoldable pub unsubscribe : ℕ → ToastState → ToastState
unsubscribe listener s = record s { listeners = without_listener listener s.listeners }

unfoldable pub get_snapshot : ToastState → List ToastRecord
get_snapshot s = s.toasts

-- `toasts.filter((toast) => toast.id !== id)`
unfoldable pub without : ToastId → List ToastRecord → List ToastRecord
without id [] = []
without id (t ∷ ts) = if id_eq t.id id then without id ts else t ∷ without id ts

unfoldable pub remove_toast : ToastId → ToastState → ToastState
remove_toast id s = emit_change (record s { toasts = without id s.toasts })

unfoldable pub remove_toasts : List ToastId → ToastState → ToastState
remove_toasts [] s = s
remove_toasts (id ∷ ids) s = remove_toasts ids (remove_toast id s)

abbrev pub includes : List ToastId → ToastId → Bool
includes ids id = any (λ other. id_eq id other) ids

-- The callback of `toasts.map` in `dismissToast`, and its effect on `changed`.
unfoldable pub hides : List ToastId → ToastRecord → Bool
hides targets t = includes targets t.id && t.visible

unfoldable pub hide_all : List ToastId → List ToastRecord → List ToastRecord
hide_all targets [] = []
hide_all targets (t ∷ ts) =
    (if hides targets t then (record t { visible = false }) else t) ∷ hide_all targets ts

unfoldable pub dismiss_targets : List ToastId → ToastState → ToastState
dismiss_targets targets s =
    let hidden = record s { toasts = hide_all targets s.toasts } in
    if any (hides targets) s.toasts
    then (record (emit_change hidden) {
      timers = hidden.timers ++ remove_later exit_duration_ms targets ∷ [];
    })
    else hidden

unfoldable pub dismiss_toast : Option ToastId → ToastState → ToastState
dismiss_toast none s = dismiss_targets (map (λ t. t.id) s.toasts) s
dismiss_toast (some id) s = dismiss_targets (id ∷ []) s

abbrev pub or_else {ℓ} : {A : Type ℓ} → Option A → A → A
or_else none d = d
or_else (some a) d = a

-- `options?.id ?? ++toastCounter`
unfoldable pub next_id : Option ToastId → ToastState → ToastId × ToastState
next_id (some id) s = (id, s)
next_id none s = (number (s.toast_counter + 1), record s { toast_counter = s.toast_counter + 1 })

unfoldable pub make_toast : ToastId → ToastType → String → ToastOptions → ToastRecord
make_toast id type title o = record {
  id = id;
  title = title;
  type = type;
  description = o.description;
  duration = o.duration;
  dismissible = or_else o.dismissible true;
  class_name = o.class_name;
  class_names = o.class_names;
  visible = true;
}

-- `toasts.map((toast) => (toast.id === id ? nextToast : toast))`
unfoldable pub replace : ToastId → ToastRecord → List ToastRecord → List ToastRecord
replace id next [] = []
replace id next (t ∷ ts) = (if id_eq t.id id then next else t) ∷ replace id next ts

unfoldable pub put_toast : ToastId → ToastRecord → List ToastRecord → List ToastRecord
put_toast id next ts = if any (λ t. id_eq t.id id) ts then replace id next ts else next ∷ ts

unfoldable pub show_toast : ToastId → ToastRecord → ToastState → ToastState
show_toast id next s =
    let shown = emit_change (record s { toasts = put_toast id next s.toasts }) in
    let duration = or_else next.duration default_duration in
    if ltb 0 duration
    then (record shown { timers = shown.timers ++ dismiss_later duration id ∷ [] })
    else shown

unfoldable pub create_toast : ToastType → String → ToastOptions → ToastState → ToastState × ToastId
create_toast type title options s =
    let (id, s') = next_id options.id s in (show_toast id (make_toast id type title options) s', id)

-- A pending timer fires.
unfoldable pub run_timer : Timer → ToastState → ToastState
run_timer (dismiss_later delay id) s = dismiss_toast (some id) s
run_timer (remove_later delay ids) s = remove_toasts ids s

abbrev pub keep_timer : Timer → Option (Timer × List Timer) → Option (Timer × List Timer)
keep_timer t none = none
keep_timer t (some (x, rest)) = some (x, t ∷ rest)

unfoldable pub take_timer : ℕ → List Timer → Option (Timer × List Timer)
take_timer i [] = none
take_timer zero (t ∷ ts) = some (t, ts)
take_timer (suc i) (t ∷ ts) = keep_timer t (take_timer i ts)

unfoldable pub fire : ℕ → ToastState → ToastState
fire i s = elim (take_timer i s.timers) [
  | none ↦ s
  | some x ↦ run_timer x.0 (record s { timers = x.1 })
]

-- What happens to the store from outside, and the timers.
pub data Event : Type 0 where
  create : ToastType → String → ToastOptions → Event
  dismiss : Option ToastId → Event
  timer : ℕ → Event
  listen unlisten : ℕ → Event

unfoldable pub step : Event → ToastState → ToastState
step (create type title options) s = (create_toast type title options s).0
step (dismiss id) s = dismiss_toast id s
step (timer i) s = fire i s
step (listen listener) s = subscribe listener s
step (unlisten listener) s = unsubscribe listener s

unfoldable pub run : List Event → ToastState → ToastState
run [] s = s
run (e ∷ es) s = run es (step e s)
