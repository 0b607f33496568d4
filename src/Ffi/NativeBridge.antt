-- ===== src/Ffi/NativeBridge.antt =====
-- How the JNI functions of core/src/ffi.rs answer Java: one text, for a success and for an error.
pub mod Replies
pub mod Calls
pub mod Files
pub mod Disguise
use Prim.Native.Char.{Char, code}
use Prim.Native.String.{String, [], ◌∷◌, ◌++◌}
use zao_p2p.Prelude.{◌==◌, if◌then◌else◌}
use zao_p2p.Ffi.{App, Reply, reply, failure}
use zao_p2p.Manager.{World}

abbrev pub apostrophe : Char
apostrophe = "'"

-- `e.replace('"', "'")`
unfoldable pub replace_quotes : String → String
replace_quotes [] = []
replace_quotes (c ∷ s) = (if code c == 34 then apostrophe else c) ∷ replace_quotes s

-- `format!(r#"{{"error":"{}"}}"#, ..)`
unfoldable pub error_json : String → String
unfolding replace_quotes
error_json e = "{\"error\":\"" ++ (replace_quotes e ++ "\"}")

-- `to_json` is the text of a success: its JSON form, or the value itself.
unfoldable pub answer_text {ℓ} : {A : Type ℓ} → (A → String) → Reply A → String
unfolding error_json
answer_text to_json (reply a) = to_json a
answer_text to_json (failure e) = error_json e

module _ (w : World) where
  -- A call that may change the state, and its answer.
  unfoldable pub to_java {ℓ} : {A : Type ℓ} → (A → String) → App w × Reply A → App w × String
  unfolding answer_text
  to_java to_json (a, r) = (a, answer_text to_json r)
