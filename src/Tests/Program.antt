-- ===== src/Tests/Program.antt =====
-- all operations, unfolded for runs at concrete inputs
use agent_memory_mcp.Dict.{lookup, insert, erase, has, text_at, values_from, values}
use agent_memory_mcp.Memory.ActivityLog.{
  activity_bullet_label, is_known_bullet, bullets_within, all_bullets_within, is_activity_log_only,
  is_activity_log_for_selection,
}
use agent_memory_mcp.Memory.Cache.{
  to_cached_memory, unindex, index_under, cache_set, cache_delete, update_cached_field,
}
use agent_memory_mcp.Memory.Engineering.{
  normalize_status, metadata_bool, has_tag, normalize_engineering_type, validate_engineering_type,
  infer_engineering_type_from_tags, engineering_type_of, default_storage_type_for_engineering_type,
  normalize_lifecycle_status, says_canonical, lifecycle_source, lifecycle_status,
  is_archived_memory, requires_review, is_review_queue, provenance_of, provenance_is_trusted,
  promotion_allowed, check_caller_metadata,
}
use agent_memory_mcp.Memory.Metadata.{
  lift_review_status, lift_canonical_flag, resolve_lifecycle, lifecycle_from_status,
  stamp_canonical, resolve_review, settle_lifecycle, normalize_engineering_metadata,
  normalize_engineering_tags,
}
use agent_memory_mcp.Memory.Policy.{
  validate_type, normalize_tags_from, normalize_tags, normalize_metadata_from, normalize_metadata,
  truncate_runes, display_title,
}
use agent_memory_mcp.Memory.Sediment.{
  normalize_sediment_layer, is_valid_sediment_layer, sub_time, defaults_applied,
  referenced_by_count_from_metadata, decide, demote_one_step, backfill_sediment_layer,
}
use agent_memory_mcp.Memory.Store.Canonical.{
  canonical_metadata, promote, prepare_promotion, promote_to_canonical,
}
use agent_memory_mcp.Memory.Store.Embedding.{
  embed_for_write, mark_embedding_truncated, embed_new, first_token, check_secrets,
}
use agent_memory_mcp.Memory.Store.Layers.{
  update_layer, move_layer, promote_from, promote_sediment, demote_from, demote_sediment,
}
use agent_memory_mcp.Memory.Store.Refcount.{
  count_one_more, update_metadata, read_metadata, write_count, increment_referenced_by_count,
}
use agent_memory_mcp.Memory.Store.Supersede.{
  retired_metadata, retire, link_back, try_get, prepare_outdated, mark_outdated,
}
use agent_memory_mcp.Memory.Store.Writes.{
  insert_row, verify_persisted, prepare_store, insert_verified, store, update_content,
  merge_metadata, apply_update, prepare_update, update_locked, embed_update, update, delete,
  prepare_temporal, set_temporal_fields,
}
use agent_memory_mcp.Memory.Trust.{
  default_owner_for_memory_source, cached_memory_entity, memory_entity, clamp_confidence,
  confidence_for_memory,
}
use agent_memory_mcp.Memory.Validate.{importance_out_of_range, validate_layer, validate}
use agent_memory_mcp.Memory.World.Op.{
  lift, sql, tick, fresh_id, embed_detailed, read_row, get, publish, write_row, save, write_rows,
  publish_all, transaction, save_all,
}
use agent_memory_mcp.Memory.World.Rows.{
  sediment_layer_value, encode_row, scan_row, insert_memory_row, row_with_count, update_memory_row,
  change_row,
}
use agent_memory_mcp.Text.{
  lower_code, fold_code, lower_char, fold_char, to_lower, fold, equal_fold, is_space, trim_left,
  trim_right, trim_space, cut_prefix, before, split,
}
use agent_memory_mcp.Text.Decimal.{digits, itoa, value_from, magnitude, atoi}
use agent_memory_mcp.Textfmt.{truncate_suffix, truncate}
use agent_memory_mcp.Base.Sorting.{sort_by}
use agent_memory_mcp.Memory.Reading.{
  list_lightweight_by, selected_by, list_by, matches, snapshot_for_context, cached_to_memory,
  add_rows, get_chunk, get_batch_from, get_batch, pick, latest_of, last_in_context,
}
use agent_memory_mcp.Memory.Reading.Statistics.{
  flush_access_stats_around, access_row, access_rows, access_cache, commit_access,
}
use agent_memory_mcp.Memory.Cycle.{
  run_sediment_cycle_by, days_before, since_cutoff, is_younger, act_on, decide_now, consider,
  cycle_round, cycle_loop,
}
use agent_memory_mcp.Memory.Cycle.Reviews.{
  sediment_review, create_sediment_review_item, pending_target, pending_targets,
  load_pending_sediment_reviews, sediment_review_item_exists,
}
use agent_memory_mcp.Lifecycle.ArchiveSweep.{
  apply_defaults, carries_tag, decide_kind, decide_action, title_or_id, promotion_review,
  create_promotion_candidate, reviewed_target, reviewed_targets, review_item_exists,
}
use agent_memory_mcp.Lifecycle.ArchiveSweep.Slugs.{
  take_action, sweep_memory, sweep_memories, cohort, sweep_cohort, sweep_slug,
}
use agent_memory_mcp.Lifecycle.ArchiveSweep.Roots.{
  is_invalid_slug, root_holds, verify_slug_in_roots, end_task, sweep_entry, sweep_entries,
  entries_of, sweep_roots, sweep_archive,
}
use agent_memory_mcp.Memory.Store.Merge.{
  wanted_ids, read_duplicates, first_owner, adopt_owner, merged_metadata, merged_tags,
  merged_primary, embed_merged, merged_away, validate_all, prepare_merge, merge_found,
  merge_duplicates,
}
use agent_memory_mcp.Memory.Store.Merge.Content.{
  byte_length, take_bytes, contains, content_contains, with_note, cut_content, merge_notes,
  merge_content, new_values, union_strings, split_csv, join_commas,
}

unfoldable pub program : Unit {0}
unfolding lookup insert erase has text_at activity_bullet_label is_known_bullet bullets_within
    all_bullets_within is_activity_log_only is_activity_log_for_selection to_cached_memory unindex
    index_under cache_set cache_delete update_cached_field normalize_status metadata_bool has_tag
    normalize_engineering_type validate_engineering_type infer_engineering_type_from_tags
    engineering_type_of default_storage_type_for_engineering_type normalize_lifecycle_status
    says_canonical lifecycle_source lifecycle_status is_archived_memory requires_review
    is_review_queue provenance_of provenance_is_trusted promotion_allowed check_caller_metadata
    lift_review_status lift_canonical_flag resolve_lifecycle lifecycle_from_status stamp_canonical
    resolve_review settle_lifecycle normalize_engineering_metadata normalize_engineering_tags
    validate_type normalize_tags_from normalize_tags normalize_metadata_from normalize_metadata
    truncate_runes display_title normalize_sediment_layer is_valid_sediment_layer sub_time
    defaults_applied referenced_by_count_from_metadata decide demote_one_step
    backfill_sediment_layer canonical_metadata promote prepare_promotion promote_to_canonical
    embed_for_write mark_embedding_truncated embed_new first_token check_secrets update_layer
    move_layer promote_from promote_sediment demote_from demote_sediment count_one_more
    update_metadata read_metadata write_count increment_referenced_by_count retired_metadata retire
    link_back try_get prepare_outdated mark_outdated insert_row verify_persisted prepare_store
    insert_verified store update_content merge_metadata apply_update prepare_update update_locked
    embed_update update delete prepare_temporal set_temporal_fields default_owner_for_memory_source
    cached_memory_entity memory_entity clamp_confidence confidence_for_memory
    importance_out_of_range validate_layer validate lift sql tick fresh_id embed_detailed read_row
    get publish write_row save write_rows publish_all transaction save_all sediment_layer_value
    encode_row scan_row insert_memory_row row_with_count update_memory_row change_row lower_code
    fold_code lower_char fold_char to_lower fold equal_fold is_space trim_left trim_right trim_space
    cut_prefix before split digits itoa value_from magnitude atoi truncate_suffix truncate
    values_from values sort_by matches snapshot_for_context cached_to_memory list_lightweight_by
    add_rows get_chunk get_batch_from get_batch pick selected_by list_by latest_of last_in_context
    access_row access_rows access_cache commit_access flush_access_stats_around days_before
    since_cutoff is_younger act_on decide_now consider cycle_round cycle_loop run_sediment_cycle_by
    sediment_review create_sediment_review_item pending_target pending_targets
    load_pending_sediment_reviews sediment_review_item_exists apply_defaults carries_tag decide_kind
    decide_action title_or_id promotion_review create_promotion_candidate reviewed_target
    reviewed_targets review_item_exists take_action sweep_memory sweep_memories cohort sweep_cohort
    sweep_slug is_invalid_slug root_holds verify_slug_in_roots end_task sweep_entry sweep_entries
    entries_of sweep_roots sweep_archive wanted_ids read_duplicates first_owner adopt_owner
    merged_metadata merged_tags merged_primary embed_merged merged_away validate_all prepare_merge
    merge_found merge_duplicates byte_length take_bytes contains content_contains with_note
    cut_content merge_notes merge_content new_values union_strings split_csv join_commas
program = tt
