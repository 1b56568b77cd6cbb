-- ===== src/Tests/Reader.antt =====
-- A decoder of execution messages that reads the id, and no more, of what the program encodes.
use workflow_automation_go_z.Common.{
  ℕ, zero, suc, String, Option, some, List, [], ◌∷◌, ◌++◌, ◌≡◌, refl, ap, ◌∙◌, codes, codes-append,
  decimal, ◌<>◌, read_number, read_number-decimal,
}
use workflow_automation_go_z.Json.{number_member, quote}
use workflow_automation_go_z.Queue
use workflow_automation_go_z.Queue.{ExecutionMessage}
use workflow_automation_go_z.Scheduler
use workflow_automation_go_z.System.Lifecycle.Inv.{Readable}

abbrev drop {ℓ} : {A : Type ℓ} → ℕ → List A → List A
drop zero l = l
drop (suc n) [] = []
drop (suc n) (x ∷ l) = drop n l

-- The id stands behind `{"executionId":`.
abbrev pub read_id : String → Option ExecutionMessage
read_id s = some (record {
  execution_id = read_number 0 (drop 15 (codes s));
  workflow_id = 0;
  trigger_payload = "";
})

read_back :
    (n : ℕ) (rest : String)
    → read_number 0
        (drop 15 (codes ("{" <> (quote "executionId" <> ":" <> decimal n) <> "," <> rest)))
      ≡ n
unfolding quote
read_back n rest =
    ap (λ l. read_number 0 (drop 15 l))
      (codes-append "{" (("\"executionId\"" <> ":" <> decimal n) <> "," <> rest)
        ∙ ap (λ l. codes "{" ++ l)
            (codes-append ("\"executionId\"" <> ":" <> decimal n) ("," <> rest)
              ∙ ap (λ l. l ++ codes ("," <> rest))
                  (codes-append "\"executionId\"" (":" <> decimal n)
                    ∙ ap (λ l. codes "\"executionId\"" ++ l) (codes-append ":" (decimal n)))
              ∙ ap (λ l. (codes "\"executionId\"" ++ codes ":" ++ codes (decimal n)) ++ l)
                  (codes-append "," rest)))
    ∙ read_number-decimal n (codes rest)

pub read_id-Readable : Readable read_id
read_id-Readable = record {
  of_gateway =
      λ m. (_, refl, unfold Queue.encode_message number_member in read_back m.execution_id _);
  of_scheduler =
      λ m. (_, refl, unfold Scheduler.encode_message number_member in read_back m.execution_id _);
}
