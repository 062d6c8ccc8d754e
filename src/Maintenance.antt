-- ===== src/Maintenance.antt =====
-- The maintenance windows: `showMaintenanceForm`, `hideMaintenanceForm` and the actions of the list.
pub mod Laws
mod Tests
use domain_ssl_checker.Digits.{show}
use domain_ssl_checker.Forms.Inputs.{one_line, select_value, time_value}
use domain_ssl_checker.Forms.Numbers.{parse_int, int_or, is_blank}
use domain_ssl_checker.Base.{
  ℕ, Text, Option, text_or, [], none, trim, Bool, List, ℤ, some, codes, true, false, if◌then◌else◌,
  find?, ◌∷◌, ◌==◌, not, ◌||◌,
}

-- A row of `/api/maintenance-windows`; the days are 0 for Sunday to 6, and 7 for every day.
pub record MwRow : Type 0 where
  pub id : ℕ
  pub name : Text
  pub description : Option Text
  pub day_of_week : Option ℕ
  pub start_time : Text
  pub end_time : Text
  pub target_type : Text

pub record MwForm : Type 0 where
  pub name : Text
  pub description : Text
  pub day : Text
  pub start : Text
  pub end : Text
  pub target : Text

pub record MwBody : Type 0 where
  pub name : Text
  pub description : Text
  pub day_of_week : ℤ
  pub start_time : Text
  pub end_time : Text
  pub target_type : Text

pub record MwState : Type 0 where
  -- `_editingMwId`
  pub editing : Option ℕ
  pub form : MwForm
  -- The form is shown instead of the list.
  pub form_open : Bool

pub data MwEffect : Type 0 where
  -- "Name is required", "Start and end times are required"
  name_required times_required : MwEffect
  button_busy button_free : MwEffect
  put_window : ℕ → MwBody → MwEffect
  post_window : MwBody → MwEffect
  sent_delete : ℕ → MwEffect
  -- The toasts
  window_updated window_added window_deleted request_failed : MwEffect
  list_reloaded : MwEffect

-- The options of `mw-day` and `mw-target`
abbrev pub day_options : List Text
day_options =
    codes "7"
    ∷ codes "0"
    ∷ codes "1"
    ∷ codes "2"
    ∷ codes "3"
    ∷ codes "4"
    ∷ codes "5"
    ∷ codes "6"
    ∷ []

abbrev pub target_options : List Text
target_options = codes "all" ∷ codes "webapp" ∷ codes "domain" ∷ codes "ssl" ∷ codes "dns" ∷ []

-- The form of a window, and the empty form: what is assigned to an element of the form is what that
-- element keeps of it.
unfoldable pub form_of : MwRow → MwForm
form_of w = record {
  name = one_line w.name;
  description = one_line (text_or w.description []);
  day = select_value day_options (show (elim w.day_of_week [ none ↦ 7 | some n ↦ n ]));
  start = time_value w.start_time;
  end = time_value w.end_time;
  target = select_value target_options w.target_type;
}

abbrev pub new_form : MwForm
new_form = record {
  name = [];
  description = [];
  day = codes "7";
  start = [];
  end = [];
  target = codes "all";
}

-- `showMaintenanceForm`
unfoldable pub show_form : Option MwRow → MwState → MwState
show_form none s = record { editing = none; form = new_form; form_open = true }
show_form (some w) s = record { editing = some w.id; form = form_of w; form_open = true }

-- `hideMaintenanceForm`
unfoldable pub hide_form : MwState → MwState
hide_form s = record s { editing = none; form_open = false }

unfoldable pub body_of_form : MwForm → MwBody
body_of_form f = record {
  name = trim f.name;
  description = trim f.description;
  day_of_week = int_or (parse_int f.day) 7;
  start_time = f.start;
  end_time = f.end;
  target_type = f.target;
}

abbrev pub request_of : Option ℕ → MwBody → MwEffect
request_of none b = post_window b
request_of (some id) b = put_window id b

abbrev pub saved_toast : Option ℕ → MwEffect
saved_toast none = window_added
saved_toast (some id) = window_updated

-- `save-maintenance-window`
unfoldable pub save_window : Bool → MwState → MwState × List MwEffect
save_window ok s =
    let request = request_of s.editing (body_of_form s.form) in
    if is_blank (trim s.form.name)
    then (s, name_required ∷ [])
    else if is_blank s.form.start || is_blank s.form.end
    then (s, times_required ∷ [])
    else if ok
    then (
      hide_form s,
      button_busy ∷ request ∷ saved_toast s.editing ∷ list_reloaded ∷ button_free ∷ [],
    )
    else (s, button_busy ∷ request ∷ request_failed ∷ button_free ∷ [])

-- `edit-maintenance-window`, with the windows that the server sends
unfoldable pub edit_window : List MwRow → ℕ → MwState → MwState
edit_window ws id s = elim (find? (λ w. w.id == id) ws) [ none ↦ s | some w ↦ show_form (some w) s ]

-- `delete-maintenance-window`
unfoldable pub delete_window : Bool → Bool → ℕ → List MwEffect
delete_window confirmed ok id =
    if not confirmed
    then []
    else if ok
    then sent_delete id ∷ window_deleted ∷ list_reloaded ∷ []
    else sent_delete id ∷ request_failed ∷ []
