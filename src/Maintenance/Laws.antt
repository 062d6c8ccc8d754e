-- ===== src/Maintenance/Laws.antt =====
-- A window that is edited and saved as it was.
use domain_ssl_checker.Maintenance.{
  put_window, save_window, MwEffect, show_form, MwBody, body_of_form, MwRow, MwState, form_of,
  day_options, target_options,
}
use domain_ssl_checker.Base.{
  ℕ, List, Text, any, text_eq, if◌then◌else◌, ◌==◌, ◌≤◌, ◌∷◌, ◌≡◌, Bool, [], pos, some, trim,
  text_or, false, suc, ==-self, arith, true, zero, refl,
}
use domain_ssl_checker.Forms.Inputs.{
  is_newline, is_time, time_value, one_line_same, select_value, select_value_same,
}
use domain_ssl_checker.Forms.Numbers.{parse_int, int_or, is_blank}
use domain_ssl_checker.Digits.{show}

-- The bodies that are sent for a window.
abbrev pub sent_for_window : ℕ → List MwEffect → List MwBody
sent_for_window id [] = []
sent_for_window id (put_window x b ∷ es) =
    let rest = sent_for_window id es in if x == id then b ∷ rest else rest
sent_for_window id (e ∷ es) = sent_for_window id es

-- The day that is sent for a day: each of 1 to 7, and 7 for Sunday.
abbrev pub day_sent : ℕ → ℕ
day_sent n = if n == 0 then 7 else n

read_day : (n : ℕ) → n ≤ 7 → int_or (parse_int (show n)) 7 ≡ pos (day_sent n)
unfolding parse_int show
read_day zero h = refl
read_day (suc zero) h = refl
read_day (suc (suc zero)) h = refl
read_day (suc (suc (suc zero))) h = refl
read_day (suc (suc (suc (suc zero)))) h = refl
read_day (suc (suc (suc (suc (suc zero))))) h = refl
read_day (suc (suc (suc (suc (suc (suc zero)))))) h = refl
read_day (suc (suc (suc (suc (suc (suc (suc zero))))))) h = refl
read_day (suc (suc (suc (suc (suc (suc (suc (suc n)))))))) h = ground arith

-- What the form can show of a window with this day: a name and a description on one line and without white
-- space at their ends, a name, two times, and a target among the options.
pub record FitsForm (w : MwRow) (day : ℕ) : Type 0 where
  pub day_of_week : w.day_of_week ≡ some day
  pub to_seven : day ≤ 7
  pub name : (trim w.name ≡ w.name) × (any is_newline w.name ≡ false)
  pub description :
      (trim (text_or w.description []) ≡ text_or w.description [])
      × (any is_newline (text_or w.description []) ≡ false)
  pub named : is_blank w.name ≡ false
  pub start_time : is_time w.start_time ≡ true
  pub end_time : is_time w.end_time ≡ true
  pub target_type : any (λ o. text_eq o w.target_type) target_options ≡ true

-- A text that is a time is not empty.
is_time-full : (t : Text) → is_time t ≡ true → is_blank t ≡ false
unfolding is_time
is_time-full [] h = absurd (ground (arith, h))
is_time-full (c ∷ t) h = refl

show_day : (day : ℕ) → day ≤ 7 → select_value day_options (show day) ≡ show day
unfolding select_value show
show_day zero h = refl
show_day (suc zero) h = refl
show_day (suc (suc zero)) h = refl
show_day (suc (suc (suc zero))) h = refl
show_day (suc (suc (suc (suc zero)))) h = refl
show_day (suc (suc (suc (suc (suc zero))))) h = refl
show_day (suc (suc (suc (suc (suc (suc zero)))))) h = refl
show_day (suc (suc (suc (suc (suc (suc (suc zero))))))) h = refl
show_day (suc (suc (suc (suc (suc (suc (suc (suc n)))))))) h = ground arith

form_shows :
    (w : MwRow) (day : ℕ)
    → FitsForm w day
    → form_of w ≡ record {
      name = w.name;
      description = text_or w.description [];
      day = show day;
      start = w.start_time;
      end = w.end_time;
      target = w.target_type;
    }
unfolding form_of time_value
form_shows w day f =
    rw
      (
        one_line_same w.name f.name.1,
        one_line_same (text_or w.description []) f.description.1,
        f.day_of_week,
        show_day day f.to_seven,
        f.start_time,
        f.end_time,
        select_value_same target_options w.target_type f.target_type,
      )
      refl

-- A window that the form can show (its name and description are trimmed and on one line, its times are
-- times, and its target is among the options), opened for an edit and saved as it is, is sent with its
-- name, description, times and target, and with its day, except that a window of Sunday becomes one of
-- every day.
pub save_window-edit :
    (ok : Bool) (w : MwRow) (day : ℕ) (s : MwState)
    → FitsForm w day
    → sent_for_window w.id (save_window ok (show_form (some w) s)).1
      ≡ record {
        name = w.name;
        description = text_or w.description [];
        day_of_week = pos (day_sent day);
        start_time = w.start_time;
        end_time = w.end_time;
        target_type = w.target_type;
      }
        ∷ []
unfolding save_window show_form body_of_form
save_window-edit true w day s f =
    rw
      (
        form_shows w day f,
        f.name.0,
        f.named,
        is_time-full w.start_time f.start_time,
        is_time-full w.end_time f.end_time,
        ==-self w.id,
        f.description.0,
        read_day day f.to_seven,
      )
      refl
save_window-edit false w day s f =
    rw
      (
        form_shows w day f,
        f.name.0,
        f.named,
        is_time-full w.start_time f.start_time,
        is_time-full w.end_time f.end_time,
        ==-self w.id,
        f.description.0,
        read_day day f.to_seven,
      )
      refl
