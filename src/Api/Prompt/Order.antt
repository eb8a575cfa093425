-- ===== src/Api/Prompt/Order.antt =====
-- src/main.go, `convertMessagesToPrompt`: which changes of a conversation do not change the prompt.
use mathlib.Core.List.{append-nil}
use business2api.Base.{
  ◌≡◌, refl, ap, ◌∙◌, sym, Bool, true, false, ◌&&◌, Option, List, [], ◌∷◌, ◌++◌, if◌then◌else◌,
  null,
}
use business2api.Text.{Text, codes, eqb}
use business2api.Api.Prompt.{
  Message, parse_message_content, dialog_parts, add_system, convert_from, render,
  convert_messages_to_prompt,
}

module _ (to_png : Text → Option Text) where
  idle : (b : Bool) → ◌≡◌ {A = List Text} (if b then [] else []) []
  idle true = refl
  idle false = refl

  system_silent : (msg : Message) → msg.role ≡ codes "system" → dialog_parts to_png msg ≡ []
  unfolding dialog_parts eqb
  system_silent msg system =
      let text = (parse_message_content to_png msg).0 in rw (system) (idle (null text && true))

  other_silent :
      (msg : Message) (prompt : Text)
      → eqb msg.role (codes "system") ≡ false
      → add_system to_png prompt msg ≡ prompt
  unfolding add_system
  other_silent msg prompt other = rw (other, add_system) refl

  convert_from-append :
      (front back : List Message) (dialog : List Text) (prompt : Text)
      → convert_from to_png (front ++ back) dialog prompt
        ≡ (let r = convert_from to_png front dialog prompt in convert_from to_png back r.0 r.1)
  unfolding convert_from
  convert_from-append [] back dialog prompt = refl
  convert_from-append (msg ∷ front) back dialog prompt =
      convert_from-append front back (dialog ++ dialog_parts to_png msg)
        (add_system to_png prompt msg)

  pair_swaps :
      (back : List Message) (system other : Message) (dialog : List Text) (prompt : Text)
      → system.role ≡ codes "system"
      → eqb other.role (codes "system") ≡ false
      → convert_from to_png (system ∷ other ∷ back) dialog prompt
        ≡ convert_from to_png (other ∷ system ∷ back) dialog prompt
  unfolding convert_from
  pair_swaps back system other dialog prompt s o =
      let d : (dialog ++ dialog_parts to_png system) ++ dialog_parts to_png other
          ≡ (dialog ++ dialog_parts to_png other) ++ dialog_parts to_png system =
        rw (system_silent system s) (
          ap (λ front. front ++ dialog_parts to_png other) (append-nil dialog)
          ∙ sym (append-nil (dialog ++ dialog_parts to_png other))) in
      let q : add_system to_png (add_system to_png prompt system) other
          ≡ add_system to_png (add_system to_png prompt other) system =
        other_silent other (add_system to_png prompt system) o
        ∙ ap (λ p. add_system to_png p system) (sym (other_silent other prompt o)) in
      rw (d, q) refl

  -- A system message may stand before or after a message of another role: the prompt is the same.
  pub convert_messages_to_prompt-swap :
      (front back : List Message) (system other : Message)
      → system.role ≡ codes "system"
      → eqb other.role (codes "system") ≡ false
      → convert_messages_to_prompt to_png (front ++ system ∷ other ∷ back)
        ≡ convert_messages_to_prompt to_png (front ++ other ∷ system ∷ back)
  unfolding convert_messages_to_prompt convert_from
  convert_messages_to_prompt-swap front back system other s o = ap (render to_png) (
      convert_from-append front (system ∷ other ∷ back) [] []
      ∙ (let r = convert_from to_png front [] [] in pair_swaps back system other r.0 r.1 s o)
      ∙ sym (convert_from-append front (other ∷ system ∷ back) [] []))
