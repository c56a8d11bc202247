-- ===== src/Merge/Program.antt =====
-- delta/merge.py and what it calls: the definitions that a run of it unfolds, for the tests.
use cognikernel.Prelude.{
  find_key, update_where, any, select, first_where, count_where, is_space, strip, contains,
  starts_with,
}
use cognikernel.Events.Row.{same_type}
use cognikernel.Events.Links.{
  max_cycle_walk, superseded_of, link, closes_cycle, superseded_row, set_superseded_by,
  apply_supersession,
}
use cognikernel.Merge.Gate.{
  admit, admit_inner, on_hit, check_statement, is_statement_type, ground_event, fail_open,
  apply_verdict,
}
use cognikernel.Merge.Ingest.{
  coalesce, upsert_link, same_link, relink, evidence_exists, event_exists, same_hash,
  link_event_provenance, link_if_evidence, is_dangling, new_row, insert_row, bump_duplicate,
  insert_or_bump, bumped_event, bumped_row, restated_row, insert_outcome, insert_or_update,
  is_live_peer, best_echo, find_echo, bump_event,
}
use cognikernel.Merge.Decay.{
  meta_key, has_meta_key, meta_value, set_meta, is_protected, already_decayed, is_decaying,
  decayed_row, is_stale, decay_pass, apply_decay_pass, apply_decay_inner,
}
use cognikernel.Merge.Supersede.{
  is_supersession_type, is_candidate, is_choice_family, is_thread_scoped, authority_precedence,
  same_evidence, passes_gates, topical_reason, cross_type_reason, supersede_reason, match_rows,
  find_superseded, add_to_group, group_by_reason, dedup_priority, apply_groups, cross_type_dedup,
}
use cognikernel.Merge.Run.{
  fire, is_firing, record_verdict, record_rule, evidence_already_merged, is_merged,
  invalidate_projection, insert_extraction_failure, settle, store_event, with_key, is_reject,
  merge_candidate, merge_loop, merge_end, execute_merge,
}

unfoldable pub merge_program : Unit {0}
unfolding max_cycle_walk superseded_of link closes_cycle superseded_row set_superseded_by
    apply_supersession find_key update_where any select first_where count_where is_space strip
    cross_type_reason admit admit_inner on_hit check_statement is_statement_type contains
    starts_with ground_event fail_open apply_verdict coalesce upsert_link same_link relink
    evidence_exists event_exists same_hash link_event_provenance link_if_evidence is_dangling
    new_row insert_row bump_duplicate insert_or_bump bumped_event bumped_row restated_row
    insert_outcome insert_or_update is_live_peer best_echo find_echo bump_event meta_key
    has_meta_key meta_value set_meta is_protected already_decayed is_decaying decayed_row is_stale
    decay_pass apply_decay_pass apply_decay_inner is_supersession_type is_candidate is_choice_family
    is_thread_scoped authority_precedence same_evidence passes_gates topical_reason supersede_reason
    match_rows find_superseded add_to_group group_by_reason dedup_priority apply_groups
    cross_type_dedup fire is_firing record_verdict record_rule evidence_already_merged is_merged
    invalidate_projection insert_extraction_failure settle store_event with_key is_reject
    merge_candidate merge_loop merge_end execute_merge same_type
merge_program = tt
