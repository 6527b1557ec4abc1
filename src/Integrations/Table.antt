-- ===== src/Integrations/Table.antt =====
-- core/integrations.py: the table of integration types with the credentials they want.
use clawrium.Prelude.{
  String, Bool, true, false, List, [], ◌∷◌, ◌==◌, if◌then◌else◌, Result, ok, ◌>>=◌,
}
use clawrium.Json.{Dict, str, bool, empty, entry}
use clawrium.Integrations.{validate_integration_type}

abbrev pub credential : String → String → Bool → Dict
credential key description required =
    entry "key" (str key)
      (entry "description" (str description) (entry "required" (bool required) empty))

abbrev github_credentials : List Dict
github_credentials =
    credential "GITHUB_TOKEN" "Personal access token or fine-grained token" true ∷ []

abbrev gitlab_credentials : List Dict
gitlab_credentials =
    credential "GITLAB_TOKEN" "Personal access token" true
    ∷ credential "GITLAB_URL" "GitLab instance URL (defaults to gitlab.com)" false
    ∷ []

abbrev atlassian_credentials : List Dict
atlassian_credentials =
    credential "ATLASSIAN_URL" "Atlassian instance URL (e.g., https://company.atlassian.net)" true
    ∷ credential "ATLASSIAN_EMAIL" "Account email for authentication" true
    ∷ credential "ATLASSIAN_API_TOKEN"
        "API token (create at https://id.atlassian.com/manage-profile/security/api-tokens)" true
    ∷ credential "CONFLUENCE_SPACES_FILTER"
        "Comma-separated Confluence space keys to filter (optional)" false
    ∷ credential "JIRA_PROJECTS_FILTER" "Comma-separated Jira project keys to filter (optional)"
        false
    ∷ []

abbrev linear_credentials : List Dict
linear_credentials = credential "LINEAR_API_KEY" "Linear API key" true ∷ []

abbrev notion_credentials : List Dict
notion_credentials = credential "NOTION_API_KEY" "Notion integration token" true ∷ []

abbrev brave_credentials : List Dict
brave_credentials =
    credential "BRAVE_API_KEY" "Brave Search API subscription token (https://brave.com/search/api/)"
      true
    ∷ []

abbrev slack_user_credentials : List Dict
slack_user_credentials =
    credential "SLACK_MCP_XOXP_TOKEN" "Slack user OAuth token (xoxp-...) — recommended path" true
    ∷ []

abbrev slack_cookie_credentials : List Dict
slack_cookie_credentials =
    credential "SLACK_MCP_XOXC_TOKEN" "Slack workspace token from browser session (xoxc-...)" true
    ∷ credential "SLACK_MCP_XOXD_TOKEN"
        "Slack `d` cookie value (xoxd-...) — rotates; expect breakage" true
    ∷ []

abbrev git_credentials : List Dict
git_credentials =
    credential "GIT_USER_NAME" "Commit author name (user.name)" true
    ∷ credential "GIT_USER_EMAIL" "Commit author email (user.email)" true
    ∷ credential "GIT_INIT_DEFAULT_BRANCH" "Default branch for new repos (init.defaultBranch)" false
    ∷ credential "GIT_PULL_REBASE" "Whether `git pull` rebases (pull.rebase: true/false)" false
    ∷ credential "GIT_CORE_EDITOR" "Editor for commit messages (core.editor)" false
    ∷ []

-- `INTEGRATION_TYPES[integration_type]["credentials"]`, for a type of the table.
unfoldable pub credentials_of : String → List Dict
credentials_of t =
    if t == "github"
    then github_credentials
    else if t == "gitlab"
    then gitlab_credentials
    else if t == "atlassian"
    then atlassian_credentials
    else if t == "linear"
    then linear_credentials
    else if t == "notion"
    then notion_credentials
    else if t == "brave"
    then brave_credentials
    else if t == "slack-user"
    then slack_user_credentials
    else if t == "slack-cookie"
    then slack_cookie_credentials
    else git_credentials

unfoldable pub get_credentials_for_type : String → Result (List Dict)
get_credentials_for_type integration_type =
    validate_integration_type (str integration_type) >>= λ _. ok (credentials_of integration_type)
