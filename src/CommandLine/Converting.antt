-- ===== src/CommandLine/Converting.antt =====
-- One argument as a string, with the block that `alloc` finds.
use unikernel_with_region_in.Base.{
  ℕ, ◌+◌, ◌*◌, ◌/◌, ◌<◌, ◌≤◌, ◌≡◌, ◌≢◌, inl, inr, refl, sym, ap, ◌∙◌, List, [], ◌∷◌, ◌++◌, length,
  count, arith, ==_refl, ==_of_ne,
}
use unikernel_with_region_in.State.{Ptr, null, State, Cmd, ok}
use unikernel_with_region_in.Region.Layout.{clear_status_bits}
use unikernel_with_region_in.Region.View.{Desc, all_addrs}
use unikernel_with_region_in.Region.Programs.Live.{Block}
use unikernel_with_region_in.Region.Programs.Ready.{IsReady}
use unikernel_with_region_in.Region.Programs.Fresh.{Extends, alloc-Fresh}
use unikernel_with_region_in.Strings.{string_words}
use unikernel_with_region_in.Strings.Compare.{chars}
use unikernel_with_region_in.Strings.Concat.{tagged, tag-size}
use unikernel_with_region_in.Strings.Copy.{Apart, put-outside}
use unikernel_with_region_in.Strings.Live.{string_words_fits, string_words_room}
use unikernel_with_region_in.CStrings.{convert_string_to_ml}
use unikernel_with_region_in.CStrings.Convert.{with_text, convert_string_to_ml_lem}
use unikernel_with_region_in.CStrings.Text.{IsText, length-text}
use unikernel_with_region_in.CommandLine.Building.{IsStringOf, IsArg}

-- What strlen does on the arguments, which have at most 8167 characters.
abbrev pub IsStrlen : (Ptr → Cmd ℕ) → Type 0
IsStrlen strlen =
    (s : State) (p : Ptr) (cs : List ℕ)
    → p ≢ null
    → length cs ≤ 8167
    → IsText s.byte p cs
    → strlen p s ≡ ok (length cs) s

module _ (malloc : ℕ → ℕ → Ptr) (strlen : Ptr → Cmd ℕ) (k fuel : ℕ) (is_strlen : IsStrlen strlen)
    (enough : 8167 < fuel) where
  -- An argument is converted.
  pub record Converts (s : State) (fl : List Ptr) (ds : List Desc) (bs : List Block) (r a : Ptr)
      (cs : List ℕ) : Type 0 where
    pub block : Block
    pub state : State
    pub free : List Ptr
    pub regions : List Desc
    pub runs : convert_string_to_ml malloc strlen fuel r (s.word a) s ≡ ok block.start state
    pub extends : Extends k 1 s fl ds state free regions (block ∷ bs)
    pub it : IsStringOf state regions block.start cs block

  pub converts :
      (s : State) (fl : List Ptr) (ds : List Desc) (bs : List Block) (r a : Ptr) (cs : List ℕ)
      → IsReady k s fl ds bs
      → count (clear_status_bits r) (all_addrs ds) ≢ 0
      → 0 < length fl
      → IsArg s fl ds a cs
      → Converts s fl ds bs r a cs
  converts s fl ds bs r a cs h region free arg =
      let n = length cs in
      let new =
        alloc-Fresh malloc k s fl bs r (string_words n) ds region (string_words_fits n arg.short)
          free h in
      let b = new.block in
      let room : n + 9 ≤ 8 * b.words = omega (arith, string_words_room n arg.short, new.words) in
      let (p, used, from, to) = new.in_page in
      let apart : Apart (s.word a) (n + 1) (b.start + 8) (n + 1) = elim (arg.clear p used) [
        | inl l ↦ inl (omega arith)
        | inr l ↦ inr (omega arith)
      ] in
      let (run, content, _) =
        convert_string_to_ml_lem malloc strlen fuel r (s.word a) b.start cs s new.state
          (is_strlen s (s.word a) cs arg.ne_null arg.short arg.it) arg.ne_null (omega (arith, from))
          (omega (arith, arg.short, enough)) (omega (arith, arg.short)) arg.it apart new.returns in
      let after = with_text (tagged s new.state b.start n s.byte) cs (b.start + 8) in
      let size : after.word b.start / 64 ≡ n =
        rw (==_refl b.start) (tag-size n (omega (arith, arg.short))) in
      let extends = new.written after.word after.byte (λ q out. (
        rw (==_of_ne q b.start (ground (arith, out))) refl,
        put-outside (cs ++ (0 ∷ [])) (b.start + 8) q s.byte
            (elim out [ inl l ↦ inl (omega arith) | inr l ↦ inr (omega (arith, length-text cs)) ]),
      )) in
      record {
        block = b;
        state = after;
        free = new.free;
        regions = new.regions;
        runs = run;
        extends = extends;
        it = record {
          start = refl;
          housed = extends.ready.live.housed.0;
          size = size;
          room = omega (arith, room);
          fits = omega (arith, room);
          content = ap (λ m. chars after.byte m (b.start + 8)) (sym size) ∙ content;
        };
      }
