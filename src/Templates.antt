-- ===== src/Templates.antt =====
-- The email templates: their tabs, the form of one template, its mark of unsaved changes, and what is
-- saved and restored.
pub mod Laws
use domain_ssl_checker.Base.{
  Text, [], Bool, List, String, not, text_eq, ◌∷◌, false, if◌then◌else◌, ◌&&◌, str_eq,
}

-- A template as it is stored and as the form has it.
pub record Template : Type 0 where
  pub subject : Text
  pub body_html : Text
  pub body_text : Text

abbrev pub empty_template : Template
empty_template = record { subject = []; body_html = []; body_text = [] }

-- `JSON.stringify(a) === JSON.stringify(b)`
abbrev pub same_template : Template → Template → Bool
same_template a b =
    text_eq a.subject b.subject
    && text_eq a.body_html b.body_html
    && text_eq a.body_text b.body_text

pub record TemplateState : Type 0 where
  -- `_emailTplDefaults`, by name
  pub stored : List (String × Template)
  -- `_currentEmailTpl`
  pub current : String
  pub form : Template
  -- `_emailTplOriginal` and `_emailTplDirty`
  pub original : Template
  pub dirty : Bool

pub data TemplateEffect : Type 0 where
  button_busy button_free : TemplateEffect
  -- `PUT /api/email-templates/name`, with the template, its `restore`, and `reset`
  put_template : String → Template → TemplateEffect
  put_restore : String → TemplateEffect
  put_reset : TemplateEffect
  -- The toasts
  template_saved template_restored templates_reset request_failed : TemplateEffect
  -- `loadEmailTemplates(true)`, and an error that nothing catches
  templates_reloaded uncaught : TemplateEffect

-- `_emailTplDefaults[name] || {}`, whose missing entries are empty
abbrev pub template_of : String → List (String × Template) → Template
template_of name [] = empty_template
template_of name ((k, t) ∷ ts) = let rest = template_of name ts in if str_eq k name then t else rest

-- `_emailTplDefaults[name] = tpl`
abbrev pub put_in : String → Template → List (String × Template) → List (String × Template)
put_in name tpl [] = (name, tpl) ∷ []
put_in name tpl ((k, t) ∷ ts) =
    let rest = put_in name tpl ts in if str_eq k name then (k, tpl) ∷ ts else (k, t) ∷ rest

-- `renderEmailTplTab`
unfoldable pub render_tab : String → TemplateState → TemplateState
render_tab name s =
    let tpl = template_of name s.stored in
    record s { current = name; form = tpl; original = tpl; dirty = false }

-- `loadEmailTemplates`, when the server has answered
unfoldable pub receive_templates : List (String × Template) → TemplateState → TemplateState
receive_templates ts s = render_tab s.current (record s { stored = ts })

-- `input` and `change`
unfoldable pub change_template : Template → TemplateState → TemplateState
change_template t s = record s { form = t; dirty = not (same_template t s.original) }

-- `email-tpl-form`
unfoldable pub submit_template : Bool → TemplateState → TemplateState × List TemplateEffect
submit_template ok s =
    if ok
    then (
      record s { stored = put_in s.current s.form s.stored; original = s.form; dirty = false },
      button_busy ∷ put_template s.current s.form ∷ template_saved ∷ button_free ∷ [],
    )
    else (s, button_busy ∷ put_template s.current s.form ∷ request_failed ∷ button_free ∷ [])

-- `restore-email-tpl` and `reset-email-templates`, after the question
unfoldable pub restore_template : Bool → Bool → TemplateState → List TemplateEffect
restore_template confirmed ok s =
    if not confirmed
    then []
    else if ok
    then put_restore s.current ∷ templates_reloaded ∷ template_restored ∷ []
    else put_restore s.current ∷ request_failed ∷ []

unfoldable pub reset_templates : Bool → Bool → List TemplateEffect
reset_templates confirmed ok =
    if not confirmed
    then []
    else if ok
    then put_reset ∷ templates_reloaded ∷ templates_reset ∷ []
    else put_reset ∷ uncaught ∷ []
