-- ===== src/Runtime/Durable.antt =====
-- What a returned response of src/agent_runtime/runtime.py rests on.
use agent_runtime_kit.Errors.{ok, Result, err}
use agent_runtime_kit.Runtime.Action.{call, ◌>>=◌, Local, Action, continue_with, lift, pure}
use agent_runtime_kit.Canonical.{InvocationOutput, Message, RuntimeRequest, RuntimeResponse}
use agent_runtime_kit.Base.{Bool, List, arith, some, ℕ, ◌++◌, ◌≡◌, refl}
use agent_runtime_kit.Runtime.Protocol.{Invoker, Runtime, Phase}
use agent_runtime_kit.Runtime.Execute.{
  final_assistant, run_claimed, edit_all, load_input, own_messages, run_agent, response_for,
}
use agent_runtime_kit.Canonical.Equality.{last_assistant}
use agent_runtime_kit.Runs.Rows.{RunRecord}
use agent_runtime_kit.Tools.{finished}

-- A chain of actions that returns: the first has returned, and the rest from there.
pub through :
    {S A B : Type 0} (f : A → Action S B) (q : Result A × Local S) (l' : Local S) (b : B)
    → continue_with f q ≡ (ok b, l')
    → (a : A) × (l1 : Local S) × (q ≡ (ok a, l1)) × (f a l1 ≡ (ok b, l'))
through f (ok a, l) l' b h = (a, l, refl, h)
through f (err e, l) l' b h = absurd (ground arith)

pub >>=-ok :
    {S A B : Type 0} (m : Action S A) (f : A → Action S B) (l l' : Local S) (b : B)
    → (m >>= f) l ≡ (ok b, l')
    → (a : A) × (l1 : Local S) × (m l ≡ (ok a, l1)) × (f a l1 ≡ (ok b, l'))
unfolding ◌>>=◌
>>=-ok m f l l' b h = through f (m l) l' b h

pub pure-ok : {S A : Type 0} (a b : A) (l l' : Local S) → pure a l ≡ (ok b, l') → (b ≡ a) × (l' ≡ l)
unfolding ◌>>=◌
pure-ok a b l l' h = (ground arith, ground arith)

pub call-ok :
    {S A : Type 0} (f : S → Result A × S) (a : A) (l l' : Local S)
    → call f l ≡ (ok a, l')
    → f l.store ≡ (ok a, l'.store)
unfolding ◌>>=◌
call-ok f a l l' h = ground arith

lift_final-ok :
    {S : Type 0} (ms : List Message) (m : Message) (l l' : Local S)
    → lift (final_assistant ms) l ≡ (ok m, l')
    → last_assistant ms ≡ some m
unfolding ◌>>=◌ final_assistant
lift_final-ok ms m l l' h = ground arith

module _ {S : Type 0} (runtime : Runtime S) (streaming : Bool) where
  -- The run that a response stands for: the input that was loaded and that the hooks have left, what
  -- the agent has answered to it and what the hooks have left of that, and the call of `complete` that
  -- has stored both.
  pub record IsDurable (invoker : Invoker S) (request : RuntimeRequest)
      (run_id thread_id owner_token : ℕ) (r : RuntimeResponse) (l : Local S) : Type 0 where
    pub run : r.run_id ≡ run_id
    pub request_id : r.request_id ≡ request.request_id
    pub thread : r.thread_id ≡ thread_id
    pub agent : r.agent ≡ invoker.descriptor
    pub started : Local S
    pub loading : Local S
    pub asked : Local S
    pub answered : Local S
    pub input : List Message
    pub loaded :
        load_input runtime streaming thread_id request.messages started ≡ (ok input, loading)
    pub edited : ℕ → Message → Message
    pub finished : ℕ → Message → Message
    pub before_model :
        runtime.hooks Phase.before_model input loading.store ≡ (ok edited, asked.store)
    pub output : InvocationOutput
    pub ran :
        run_agent runtime streaming invoker
          (record {
            run_id = run_id;
            thread_id = thread_id;
            user_id = request.user_id;
            messages = edit_all edited 0 input;
            metadata = request.metadata;
          })
          asked
        ≡ (ok output, answered)
    pub left : S
    pub after_model :
        runtime.hooks Phase.after_model output.messages answered.store ≡ (ok finished, left)
    pub assistant : last_assistant (edit_all finished 0 output.messages) ≡ some r.message
    pub tool_results : r.tool_results ≡ output.tool_results
    pub usage : r.usage ≡ output.usage
    pub metadata : r.metadata ≡ output.metadata
    pub stored : RunRecord
    pub before : S
    pub completed :
        runtime.stores.complete run_id owner_token
          (own_messages runtime streaming edited input request.messages
            ++ edit_all finished 0 output.messages)
          r
          before
        ≡ (ok stored, l.store)

  transfer :
      {invoker : Invoker S} {request : RuntimeRequest} {run_id thread_id owner_token : ℕ}
      {r r' : RuntimeResponse} {l l' : Local S}
      → r' ≡ r
      → l' ≡ l
      → IsDurable invoker request run_id thread_id owner_token r l
      → IsDurable invoker request run_id thread_id owner_token r' l'
  transfer same end d = rw (same, end) d

  pub run_claimed-IsDurable :
      (invoker : Invoker S) (request : RuntimeRequest) (run_id thread_id owner_token : ℕ)
      (l l' : Local S) (r : RuntimeResponse)
      → run_claimed runtime streaming invoker request run_id thread_id owner_token l ≡ (ok r, l')
      → IsDurable invoker request run_id thread_id owner_token r l'
  unfolding run_claimed
  run_claimed-IsDurable invoker request run_id thread_id owner_token l l' r h =
      let (_, l1, _, h1) = >>=-ok _ _ l l' r h in
      let (_, l2, _, h2) = >>=-ok _ _ l1 l' r h1 in
      let (input, l3, loaded, h3) = >>=-ok _ _ l2 l' r h2 in
      let (edited, l4, first, h4) = >>=-ok _ _ l3 l' r h3 in
      let (output, l5, ran, h5) = >>=-ok _ _ l4 l' r h4 in
      let (finished, l6, second, h6) = >>=-ok _ _ l5 l' r h5 in
      let (assistant, l7, a, h7) = >>=-ok _ _ l6 l' r h6 in
      let (trace_id, l8, _, h8) = >>=-ok _ _ l7 l' r h7 in
      let (stored, l9, c, h9) = >>=-ok _ _ l8 l' r h8 in
      let (same, end) = pure-ok _ r l9 l' h9 in
      let d : IsDurable invoker request run_id thread_id owner_token
          (response_for runtime streaming request run_id thread_id invoker.descriptor assistant
            output trace_id)
          l9 =
        record {
          run = refl;
          request_id = refl;
          thread = refl;
          agent = refl;
          started = l2;
          loading = l3;
          asked = l4;
          answered = l5;
          input = input;
          loaded = loaded;
          edited = edited;
          finished = finished;
          before_model = call-ok _ edited l3 l4 first;
          output = output;
          ran = ran;
          left = l6.store;
          after_model = call-ok _ finished l5 l6 second;
          assistant = lift_final-ok (edit_all finished 0 output.messages) assistant l6 l7 a;
          tool_results = refl;
          usage = refl;
          metadata = refl;
          stored = stored;
          before = l8.store;
          completed = call-ok _ stored l8 l9 c;
        } in
      transfer same end d
